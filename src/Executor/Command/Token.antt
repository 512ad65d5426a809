-- ===== src/Executor/Command/Token.antt =====
-- The address of a repository with its token.
use tasknexus_client_agent.Prelude.{ℕ, Option, none, some, ◌∷◌, ◌++◌, ◌≡◌, refl, ◌⊎◌, inl, inr}
use tasknexus_client_agent.Text.{Text, codes, strip_prefix, strip_prefix_iff}
use tasknexus_client_agent.Executor.Command.{inject_token_into_url, with_token}

abbrev pub https : Text
https = codes "https://"

abbrev pub http : Text
http = codes "http://"

-- The token stands behind the scheme, and nothing else changes.
abbrev pub IsTokened : Text → Text → Text → Text → Type 0
IsTokened scheme token url result =
    (rest : Text) × (url ≡ scheme ++ rest)
    × (result ≡ scheme ++ (codes "oauth2:" ++ (token ++ (codes "@" ++ rest))))

with_token-cases :
    (o p : Option Text) (token url : Text)
    → strip_prefix https url ≡ o
    → strip_prefix http url ≡ p
    → IsTokened https token url (with_token o p token url)
      ⊎ (IsTokened http token url (with_token o p token url)
          ⊎ ((strip_prefix https url ≡ none)
              × (strip_prefix http url ≡ none)
              × (with_token o p token url ≡ url)))
with_token-cases (some rest) p token url h k = inl (rest, strip_prefix_iff https url rest h, refl)
with_token-cases none (some rest) token url h k =
    inr (inl (rest, strip_prefix_iff http url rest k, refl))
with_token-cases none none token url h k = inr (inr (h, k, refl))

-- A token that is not empty is put behind the scheme of an `https://` or `http://` address, as the
-- password of `oauth2`, and the rest of the address stays; any other address stays as it is.
pub inject_token_into_url-cases :
    (url token : Text) (c : ℕ)
    → let result = inject_token_into_url url (some (c ∷ token)) in
      IsTokened https (c ∷ token) url result
      ⊎ (IsTokened http (c ∷ token) url result
          ⊎ ((strip_prefix https url ≡ none) × (strip_prefix http url ≡ none) × (result ≡ url)))
unfolding inject_token_into_url
inject_token_into_url-cases url token c =
    with_token-cases (strip_prefix https url) (strip_prefix http url) (c ∷ token) url refl refl
