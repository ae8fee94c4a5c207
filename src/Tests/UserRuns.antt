-- ===== src/Tests/UserRuns.antt =====
-- The stores of users and preprompts at concrete inputs.
use remote_llmconnector.Shared.{
  Option, ℕ, Env, lookup, insert, write, true, false, none, some, ◌≡◌, ◌↔◌, refl, ◌==◌,
  if◌then◌else◌,
}
use remote_llmconnector.UserStore.Document.{UserRole, User}
use remote_llmconnector.UserStore.Store.{
  UserStore, empty, get_all, load, save, get_by_username, get_by_api_key, new_key, create_user,
  returned, regenerate_api_key, validate_api_key,
}
use remote_llmconnector.UserStore.Valid.{IsValid}
use remote_llmconnector.UserStore.Steps.{Reach, here, next, created, users-IsValid}
use remote_llmconnector.UserStore.Keys.{validate_api_key-live, get_by_api_key-regenerate}
use remote_llmconnector.UserStore.Names.{get_all-load}
use remote_llmconnector.PrepromptStore.Reload.{preprompts-load}
use remote_llmconnector.PrepromptStore
use remote_llmconnector.PrepromptStore.{
  Preprompt, PrepromptStore, create_or_update, set_default, get_default, map_values,
}
use remote_llmconnector.PrepromptStore.Defaults
use remote_llmconnector.PrepromptStore.Defaults.{
  preprompts-IsValid, written, get_default-set_default,
}
use remote_llmconnector.Tests.Data.{
  env, env_with, clock_text, read_clock, read_clock-clock_text, truthy-clock_text,
}

abbrev ref : Option (ℕ × User) → Option ℕ
ref none = none
ref (some (r, u)) = some r

abbrev pub first : UserStore
first = (create_user env "ann" 1 none (empty true)).1

abbrev pub second : UserStore
second = (create_user (env_with "b2") "bob" 2 none first).1

first-Reach : Reach (empty true) first
unfolding lookup
first-Reach = next here (created env "ann" 1 none refl refl)

pub second-Reach : Reach (empty true) second
unfolding lookup insert create_user save
second-Reach = next first-Reach (created (env_with "b2") "bob" 2 none refl refl)

abbrev pub bob : User
bob = record {
  gitlab_username = "bob";
  gitlab_id = 2;
  api_key = "sk-b2";
  role = UserRole.user;
  created_at = 5;
  last_used = none;
  blocked = false;
}

pub bob_found : get_by_username second "bob" ≡ some (1, bob)
unfolding lookup insert create_user save get_by_username write
bob_found = refl

fresh_key : lookup (new_key (env_with "c3")) second.index ≡ none
unfolding lookup insert create_user save
fresh_key = refl

-- A store where `create_user` was called for a taken name: the old key is accepted still, for a user
-- that no name refers to.
abbrev taken : UserStore
taken = (create_user (env_with "b2") "ann" 2 none first).1

taken_lem :
    (ref (get_by_username taken "ann") ≡ some 1)
    × (ref (validate_api_key taken (new_key env)) ≡ some 0)
    × (ref (validate_api_key taken "sk-b2") ≡ some 1)
unfolding create_user lookup insert save get_by_username get_by_api_key validate_api_key write
taken_lem = (refl, refl, refl)

users-IsValid_example : IsValid second
users-IsValid_example = users-IsValid true second-Reach

validate_api_key-live_example : (validate_api_key second "sk-b2" ≡ some (1, bob)) ↔ (
    (get_by_username second "bob" ≡ some (1, bob))
    × (bob.api_key ≡ "sk-b2")
    × (bob.blocked ≡ false))
validate_api_key-live_example = validate_api_key-live true "sk-b2" 1 bob second-Reach

get_by_api_key-regenerate_example :
    let (result, t) = regenerate_api_key (env_with "c3") "bob" second in
    (result ≡ returned (some "sk-c3"))
    × (get_by_api_key t "sk-b2" ≡ (
        if "sk-c3" == "sk-b2"
        then some (1, record bob { api_key = "sk-c3" })
        else if "sk-b2" == "sk-b2"
        then none
        else get_by_api_key second "sk-b2"))
get_by_api_key-regenerate_example =
    get_by_api_key-regenerate true second-Reach (env_with "c3") "bob" 1 bob bob_found "sk-b2"
      fresh_key

-- Two preprompts, the first of them the default.
abbrev prompts : PrepromptStore
prompts =
    (create_or_update env "b" "be kind" false
      (create_or_update env "a" "be brief" true (PrepromptStore.empty true)).1).1

prompts-Reach : Defaults.Reach (PrepromptStore.empty true) prompts
prompts-Reach =
    Defaults.next (Defaults.next Defaults.here (written env "a" "be brief" true))
      (written env "b" "be kind" false)

abbrev kind : Preprompt
kind = record {
  name = "b";
  content = "be kind";
  is_default = false;
  created_at = 5;
  updated_at = 5;
}

kind_found : lookup "b" prompts.preprompts ≡ some kind
unfolding lookup insert create_or_update PrepromptStore.save map_values
kind_found = refl

preprompts-IsValid_example : Defaults.IsValid prompts.preprompts
preprompts-IsValid_example = preprompts-IsValid true prompts-Reach

get_default-set_default_example :
    let (result, t) = set_default env "b" prompts in
    (result ≡ true) × (get_default t ≡ some (record kind { is_default = true }))
get_default-set_default_example = get_default-set_default true env "b" kind prompts-Reach kind_found

-- A clock whose texts can be read back.
abbrev clock_env : Env
clock_env = record env { isoformat = clock_text }

second_file : second.has_file ≡ true
unfolding create_user save
second_file = refl

get_all-load_example :
    get_all (load read_clock true (some (save clock_env second).disk)) ≡ get_all second
get_all-load_example =
    get_all-load read_clock true clock_env read_clock-clock_text truthy-clock_text second-Reach
      second_file refl

prompts_file : prompts.has_file ≡ true
unfolding create_or_update PrepromptStore.save
prompts_file = refl

preprompts-load_example :
    (PrepromptStore.load read_clock true
      (some (PrepromptStore.save clock_env prompts).disk)).preprompts
    ≡ prompts.preprompts
preprompts-load_example =
    preprompts-load read_clock true clock_env read_clock-clock_text prompts-Reach prompts_file refl
