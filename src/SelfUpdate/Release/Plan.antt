-- ===== src/SelfUpdate/Release/Plan.antt =====
-- What a plan of agent/src/self_update.rs says.
use tasknexus_client_agent.Prelude.{
  ◌==◌, ℕ, ◌≡◌, refl, Bool, false, List, ◌++◌, ◌||◌, none, [], ◌∷◌, if◌then◌else◌, is_empty, arith,
  text_eq, inl, inr, Bool-cases,
}
use tasknexus_client_agent.Text.{Text, codes, trim, contains, after_last, split_once, strip_prefix}
use tasknexus_client_agent.Error.{Result, ok, err, ◌>>=◌}
use tasknexus_client_agent.SelfUpdate.Release.{
  Platform, GithubReleaseAsset, ReleasePlan, GithubRelease, platform_asset_name, direct_name, ok_or,
}

-- A bind that succeeded
pub >>=-eq-ok {ℓ κ} :
    {S : Type ℓ} {T : Type κ} (m : Result S) (rest : S → Result T) {value : T}
    → (m >>= rest) ≡ ok value
    → (first : S) × (m ≡ ok first) × (rest first ≡ ok value)
>>=-eq-ok (ok first) rest h = (first, refl, h)
>>=-eq-ok (err e) rest h = cc

abbrev pub any_named : Text → List GithubReleaseAsset → Bool
any_named name [] = false
any_named name (asset ∷ assets) = (asset.name == name) || any_named name assets

split_once-none : (c : ℕ) (t : Text) → contains c t ≡ false → split_once (c ∷ []) t ≡ none
unfolding split_once contains strip_prefix
split_once-none c [] h = refl
split_once-none c (d ∷ t) h = ground (arith, split_once-none c t)

-- The first asset of that name has that address.
abbrev pub IsFirst : Text → Text → List GithubReleaseAsset → Type 0
IsFirst name url assets =
    (before : List GithubReleaseAsset) × (asset : GithubReleaseAsset) × (behind : List
      GithubReleaseAsset)
    × (assets ≡ before ++ asset ∷ behind)
    × (asset.name ≡ name)
    × (asset.browser_download_url ≡ url)
    × (any_named name before ≡ false)

-- A plan for the latest release has the name of the platform's asset, the address of the first asset
-- of the release that has this name, and the trimmed tag; neither address nor tag is empty.
pub record IsPlanned (platform : Platform) (release : GithubRelease) (plan : ReleasePlan)
    : Type 0 where
  pub name : platform_asset_name platform ≡ ok plan.agent_name
  pub url : IsFirst plan.agent_name plan.agent_url release.assets
  pub url_known : is_empty plan.agent_url ≡ false
  pub version : plan.target_version ≡ trim release.tag_name
  pub version_known : is_empty plan.target_version ≡ false

-- The name of a direct download is the last segment of its address, whole, unless that is empty or
-- has a `?`: then it is the platform's name, or `tasknexus-agent`.
pub direct_name-cases :
    (platform : Platform) (url : Text)
    → let last = after_last b'/' url in
      direct_name platform url ≡ (
        if is_empty last || contains b'?' last
        then ok_or (platform_asset_name platform) (codes "tasknexus-agent")
        else last)
unfolding direct_name
direct_name-cases platform url =
    let last = after_last b'/' url in
    elim (Bool-cases (contains b'?' last)) [
      | inl query ↦ ground arith
      | inr plain ↦ rw (split_once-none b'?' last plain) (ground arith)
    ]
