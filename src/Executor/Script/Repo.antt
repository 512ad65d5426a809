-- ===== src/Executor/Script/Repo.antt =====
-- The name of a repository, from its address.
use tasknexus_client_agent.Prelude.{
  ℕ, zero, suc, ◌≡◌, refl, false, Option, none, some, [], ◌∷◌, map, arith, length,
}
use tasknexus_client_agent.Text.{Text, codes, contains, after_last}
use tasknexus_client_agent.Executor.Command.Shell.{after_last-clean}
use tasknexus_client_agent.Executor.Script.{
  strip_suffix, trim_matches, trim_end_matches, underscore, repo_name_of, trim_again,
}

contains-strip_suffix :
    (c : ℕ) (p t rest : Text)
    → strip_suffix p t ≡ some rest
    → contains c t ≡ false
    → contains c rest ≡ false
unfolding strip_suffix contains
contains-strip_suffix c p [] rest h k = ground arith
contains-strip_suffix c p (d ∷ t) [] h k = refl
contains-strip_suffix c p (d ∷ t) (r ∷ rest) h k = ground (arith, contains-strip_suffix c p t rest)

contains-trim_again :
    (c : ℕ) (p t : Text) (again : Text → Text) (o : Option Text)
    → strip_suffix p t ≡ o
    → contains c t ≡ false
    → ((rest : Text) → contains c rest ≡ false → contains c (again rest) ≡ false)
    → contains c (trim_again again o t) ≡ false
contains-trim_again c p t again none h k f = k
contains-trim_again c p t again (some rest) h k f = f rest (contains-strip_suffix c p t rest h k)

contains-trim_matches :
    (n c : ℕ) (p t : Text) → contains c t ≡ false → contains c (trim_matches n p t) ≡ false
unfolding trim_matches
contains-trim_matches zero c p t k = k
contains-trim_matches (suc n) c p t k =
    contains-trim_again c p t (λ rest. trim_matches n p rest) (strip_suffix p t) refl k
      (λ rest. contains-trim_matches n c p rest)

contains_slash-map : (t : Text) → contains b'/' t ≡ false → contains b'/' (map underscore t) ≡ false
unfolding contains
contains_slash-map [] h = refl
contains_slash-map (c ∷ t) h = ground (arith, contains_slash-map t)

contains_dash-map : (t : Text) → contains b'-' (map underscore t) ≡ false
unfolding contains
contains_dash-map [] = refl
contains_dash-map (c ∷ t) = ground (arith, contains_dash-map t)

-- The name of a repository is one name of a path, whatever the address is: no slash is in it. No
-- dash is in it either, as the name of a Python package asks.
pub repo_name_of-plain :
    (url : Text)
    → (contains b'/' (repo_name_of url) ≡ false) × (contains b'-' (repo_name_of url) ≡ false)
unfolding repo_name_of trim_end_matches
repo_name_of-plain url =
    let last = after_last b'/' (trim_end_matches (codes "/") url) in
    (
      contains_slash-map _ (
          contains-trim_matches (length last) b'/' (codes ".git") last
            (after_last-clean b'/' (trim_end_matches (codes "/") url))),
      contains_dash-map (trim_end_matches (codes ".git") last),
    )
