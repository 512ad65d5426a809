-- ===== src/Config/Valid.antt =====
-- What `validate` and `proxy_env` of agent/src/config.rs promise.
use tasknexus_client_agent.Prelude.{
  ◌≡◌, ◌↔◌, ◌⊎◌, true, false, Option, none, some, [], arith, get, insert, Map, text_eq, is_empty,
  refl,
}
use tasknexus_client_agent.Text.{Text, codes, starts_with}
use tasknexus_client_agent.Config.{AgentConfig, valid, validate, proxy_env, insert_both}

-- A configuration is valid exactly when it has a server, a name, and a `ws://` or `wss://` server.
pub validate_iff :
    (c : AgentConfig)
    → (validate c ≡ valid) ↔ (
        (is_empty c.server ≡ false)
        × (is_empty c.name ≡ false)
        × ((starts_with (codes "ws://") c.server ≡ true)
            ⊎ (starts_with (codes "wss://") c.server ≡ true)))
unfolding validate
validate_iff c = (λ h. ground arith, λ h. ground arith)

abbrev Holds : Option Text → Option Text → Option Text → Map Text Text → Type 0
Holds http https no_proxy env =
    (get (codes "HTTP_PROXY") env ≡ http)
    × (get (codes "http_proxy") env ≡ http)
    × (get (codes "HTTPS_PROXY") env ≡ https)
    × (get (codes "https_proxy") env ≡ https)
    × (get (codes "NO_PROXY") env ≡ no_proxy)
    × (get (codes "no_proxy") env ≡ no_proxy)

proxies :
    (p q r : Option Text)
    → Holds p q r (
        insert_both "NO_PROXY" "no_proxy" r
          (insert_both "HTTPS_PROXY" "https_proxy" q (insert_both "HTTP_PROXY" "http_proxy" p [])))
unfolding get insert
proxies none none none = (refl, refl, refl, refl, refl, refl)
proxies none none (some r) = (refl, refl, refl, refl, refl, refl)
proxies none (some q) none = (refl, refl, refl, refl, refl, refl)
proxies none (some q) (some r) = (refl, refl, refl, refl, refl, refl)
proxies (some p) none none = (refl, refl, refl, refl, refl, refl)
proxies (some p) none (some r) = (refl, refl, refl, refl, refl, refl)
proxies (some p) (some q) none = (refl, refl, refl, refl, refl, refl)
proxies (some p) (some q) (some r) = (refl, refl, refl, refl, refl, refl)

-- Each proxy of the configuration is in the environment under both spellings of its variable, and
-- a proxy that is not configured is under neither.
pub get-proxy_env :
    (c : AgentConfig)
    → (get (codes "HTTP_PROXY") (proxy_env c) ≡ c.http_proxy)
      × (get (codes "http_proxy") (proxy_env c) ≡ c.http_proxy)
      × (get (codes "HTTPS_PROXY") (proxy_env c) ≡ c.https_proxy)
      × (get (codes "https_proxy") (proxy_env c) ≡ c.https_proxy)
      × (get (codes "NO_PROXY") (proxy_env c) ≡ c.no_proxy)
      × (get (codes "no_proxy") (proxy_env c) ≡ c.no_proxy)
unfolding proxy_env
get-proxy_env c = proxies c.http_proxy c.https_proxy c.no_proxy
