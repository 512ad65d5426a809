-- ===== src/SelfUpdate/Release.antt =====
-- The release that agent/src/self_update.rs updates to, and what it asks the server for. The reqwest
-- and serde_json crates are a `Server`.
pub mod Plan
use tasknexus_client_agent.Prelude.{
  ℕ, Bool, true, false, ◌&&◌, not, Option, none, some, List, [], ◌∷◌, ◌++◌, if◌then◌else◌, is_empty,
  or_else, leb, ltb, text_eq, ◌==◌, ◌⊎◌, inl, inr,
}
use tasknexus_client_agent.Text.{Text, codes, trim, contains, after_last, split_once}
use tasknexus_client_agent.Error.{AgentError, execution, Result, ok, err, ◌>>=◌}

pub record GithubReleaseAsset : Type 0 where
  pub name : Text
  pub browser_download_url : Text

pub record GithubRelease : Type 0 where
  pub tag_name : Text
  pub assets : List GithubReleaseAsset

pub record ReleasePlan : Type 0 where
  pub target_version : Text
  pub agent_name : Text
  pub agent_url : Text

pub record HttpRequest : Type 0 where
  pub url : Text
  pub accept : Text
  pub user_agent : Text
  pub authorization : Option Text

-- A response has its status, as a number and as `Display` writes it, and its body if it can be read.
pub record Response : Type 0 where
  pub status : ℕ
  pub status_line : Text
  pub body : Text ⊎ Text

pub record Server : Type 0 where
  pub build : Option Text
  pub send : HttpRequest → Text ⊎ Response
  pub from_str : Text → Text ⊎ GithubRelease

-- The environment's variables that are read, and the platform.
pub record Platform : Type 0 where
  pub release_api : Option Text
  pub github_token : Option Text
  pub os : Text
  pub arch : Text

abbrev pub default_release_api : Text
default_release_api =
    codes "https://api.github.com/repos/TaskNexus/tasknexus-client-agent/releases/latest"

abbrev pub update_user_agent : Text
update_user_agent = codes "TaskNexus-Agent-SelfUpdate/1.0"

-- `ok().filter(|value| !value.trim().is_empty())`
abbrev pub nonblank : Option Text → Option Text
nonblank none = none
nonblank (some value) = if not (is_empty (trim value)) then some value else none

abbrev pub bearer : Option Text → Option Text
bearer none = none
bearer (some token) = some (codes "Bearer " ++ token)

abbrev pub request_for : Platform → Text → Text → HttpRequest
request_for platform accept url = record {
  url = url;
  accept = accept;
  user_agent = update_user_agent;
  authorization = bearer (nonblank platform.github_token);
}

abbrev pub is_success : ℕ → Bool
is_success status = leb 200 status && ltb status 300

abbrev pub body_of : (Text → Text) → Text ⊎ Text → Result Text
body_of message (inl e) = err (execution (message e))
body_of message (inr body) = ok body

abbrev pub text_of : Text → Text ⊎ Response → Result Text
text_of url (inl e) =
    err (execution (codes "HTTP request failed for '" ++ (url ++ (codes "': " ++ e))))
text_of url (inr response) =
    if not (is_success response.status)
    then err (
        execution (
          codes "HTTP "
          ++ (response.status_line ++ (codes " while requesting '" ++ (url ++ codes "'")))))
    else body_of (λ e. codes "Failed to read response text '" ++ (url ++ (codes "': " ++ e)))
        response.body

unfoldable pub http_get_text : Server → Platform → Text → Result Text
http_get_text server platform url =
    text_of url (server.send (request_for platform (codes "application/vnd.github+json") url))

abbrev pub bytes_of : Text → Text ⊎ Response → Result Text
bytes_of url (inl e) = err (execution (codes "Failed to download '" ++ (url ++ (codes "': " ++ e))))
bytes_of url (inr response) =
    if not (is_success response.status)
    then err (
        execution
          (codes "Failed to download '" ++ (url ++ (codes "': HTTP " ++ response.status_line))))
    else body_of (λ e. codes "Failed to read downloaded bytes '" ++ (url ++ (codes "': " ++ e)))
        response.body

unfoldable pub http_get_bytes : Server → Platform → Text → Result Text
http_get_bytes server platform url =
    bytes_of url (server.send (request_for platform (codes "application/octet-stream") url))

abbrev pub unsupported : Platform → Text
unsupported platform =
    codes "Unsupported OS/ARCH for self-update: " ++ (platform.os ++ (codes "/" ++ platform.arch))

unfoldable pub platform_asset_name : Platform → Result Text
platform_asset_name platform =
    if (platform.os == codes "macos") && (platform.arch == codes "aarch64")
    then ok (codes "tasknexus-agent-macos-arm64")
    else if (platform.os == codes "windows") && (platform.arch == codes "x86_64")
    then ok (codes "tasknexus-agent-windows-x86_64.exe")
    else if (platform.os == codes "linux") && (platform.arch == codes "x86_64")
    then ok (codes "tasknexus-agent-linux-amd64")
    else if (platform.os == codes "linux") && (platform.arch == codes "aarch64")
    then ok (codes "tasknexus-agent-linux-arm64")
    else err (execution (unsupported platform))

abbrev pub parse_release : Text ⊎ GithubRelease → Result GithubRelease
parse_release (inl e) = err (execution (codes "Failed to parse release metadata JSON: " ++ e))
parse_release (inr release) = ok release

-- The address of the first asset of that name; empty if there is none.
unfoldable pub asset_url : Text → List GithubReleaseAsset → Text
asset_url agent_name [] = []
asset_url agent_name (asset ∷ assets) =
    let later = asset_url agent_name assets in
    if asset.name == agent_name then asset.browser_download_url else later

abbrev pub plan_of : Text → Text → Text → Result ReleasePlan
plan_of target_version agent_name agent_url =
    if is_empty agent_url
    then err
        (execution (codes "Release asset '" ++ (agent_name ++ codes "' not found for self-update")))
    else ok
        (record { target_version = target_version; agent_name = agent_name; agent_url = agent_url })

abbrev pub tagged : Text → Result Text
tagged tag_name =
    if is_empty (trim tag_name)
    then err (execution (codes "Release metadata missing tag_name"))
    else ok (trim tag_name)

unfoldable pub resolve_release_plan : Server → Platform → Result ReleasePlan
unfolding http_get_text platform_asset_name asset_url
resolve_release_plan server platform =
    http_get_text server platform (or_else (nonblank platform.release_api) default_release_api)
    >>= (λ release_json. parse_release (server.from_str release_json))
    >>= λ release. tagged release.tag_name >>= λ target_version.
        platform_asset_name platform >>= λ agent_name.
        plan_of target_version agent_name (asset_url agent_name release.assets)

abbrev pub before_query : Text → Option (Text × Text) → Text
before_query s none = s
before_query s (some (before, after)) = before

-- A result's value, or another
abbrev pub ok_or : Result Text → Text → Text
ok_or (ok value) other = value
ok_or (err e) other = other

unfoldable pub direct_name : Platform → Text → Text
unfolding platform_asset_name
direct_name platform url =
    let last = after_last b'/' url in
    if not (is_empty last) && not (contains b'?' last)
    then before_query last (split_once (codes "?") last)
    else ok_or (platform_asset_name platform) (codes "tasknexus-agent")

unfoldable pub resolve_direct_download_plan : Platform → Text → Result ReleasePlan
unfolding direct_name
resolve_direct_download_plan platform url = ok (record {
  target_version = codes "direct-download";
  agent_name = direct_name platform url;
  agent_url = url;
})
