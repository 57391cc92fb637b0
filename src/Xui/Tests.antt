-- ===== src/Xui/Tests.antt =====
-- The panel's module on concrete inbounds, targets and failures.
use akastr_agent.Base.{
  ℕ, String, true, false, Option, none, some, List, [], ◌∷◌, get, put, delete, All, inl,
  String-discrete, ◌≡◌, ◌≢◌, refl, ok, sort, insert, has_prefix, is_prefix,
}
use akastr_agent.State.{File, missing, rename, sync_directory, save, load}
use akastr_agent.Xui.{
  at, text, flag, Value-discrete, Fields, Client, Settings, Inbound, add, update, delete_client,
}
use akastr_agent.Xui.State.{
  StateFile, LocalState, open_state, opened, save_state, flush, set_reset, same,
  set_restart_pending,
}
use akastr_agent.Xui.Targets.{has_text, credential_field, compatible, misfit, ss2022}
use akastr_agent.Xui.Plan.{
  text_of, identity, is_owned, used_map, used_of, owned_of, foreign_of, owned_conflict,
  target_conflict, target_has, unwanted, owned_at, is_enabled, removals, enabled, fields_of,
  put_fields, new_client, same_number, same_value, merge_fields, client_actions, all_actions,
  plan_clients, plan,
}
use akastr_agent.Xui.Panel.{World, Run}
use akastr_agent.Xui.Apply.{Parsed}
use akastr_agent.Xui.Resets.{Once}
use akastr_agent.Xui.Calls.{applies, applies-OnceRun}
use akastr_agent.Xui.Durable.{Op, resets, pends, call, calls, stored_resets, calls_saved}
use akastr_agent.Xui.Foreign.{Misses, plan-Misses}

abbrev no_number : String → Option ℕ
no_number s = none

abbrev admin : Fields
admin = ("auth", text "admin-secret-admin") ∷ ("email", text "admin") ∷ []

abbrev old : Fields
old = ("auth", text "old-secret-old-secret") ∷ ("email", text "ak-old") ∷ ("enable", flag true) ∷ []

abbrev settings : List Fields → Settings
settings cs = record { clients = some cs; method = "" }

abbrev inbound : List Fields → Inbound
inbound cs = record {
  id = at 1;
  protocol = "hysteria2";
  settings = some (settings cs);
  stats = record { email = "ak-new"; up = 1; down = 2 } ∷ [];
}

abbrev fresh : Client
fresh = record {
  email = "ak-new";
  credential = "new-secret-new-secret";
  flow = "";
  enable = true;
  total_bytes = 0;
  reset_seq = 1;
  comment = "";
}

removes_old :
    plan no_number no_number (inbound (admin ∷ old ∷ [])) []
    ≡ ok (delete_client "old-secret-old-secret" ∷ [])
unfolding plan plan_clients owned_of is_owned text_of get put delete foreign_of identity has_text
    credential_field compatible misfit ss2022 owned_conflict target_conflict target_has unwanted
    owned_at is_enabled removals enabled fields_of put_fields new_client same_number same_value
    merge_fields client_actions all_actions used_map used_of sort insert has_prefix is_prefix
    String-discrete
removes_old = refl

foreign_admin : is_owned admin ≡ false
unfolding plan plan_clients owned_of is_owned text_of get put delete foreign_of identity has_text
    credential_field compatible misfit ss2022 owned_conflict target_conflict target_has unwanted
    owned_at is_enabled removals enabled fields_of put_fields new_client same_number same_value
    merge_fields client_actions all_actions used_map used_of sort insert has_prefix is_prefix
    String-discrete
foreign_admin = refl

plan-Misses_example :
    All (Misses "hysteria2" admin) (delete_client "old-secret-old-secret" ∷ [])
    × All (λ (t : Client). t.credential ≢ identity "hysteria2" admin) []
plan-Misses_example =
    plan-Misses no_number no_number (inbound (admin ∷ old ∷ [])) (settings (admin ∷ old ∷ []))
      (admin ∷ old ∷ []) admin [] (delete_client "old-secret-old-secret" ∷ []) refl refl removes_old
      (inl refl) foreign_admin

abbrev no_file : File StateFile
no_file = record { stored = missing }

abbrev empty_state : LocalState
empty_state = record { file = no_file; resets = []; restart_pending = false; dirty = false }

opens : open_state false no_file ≡ some empty_state
unfolding open_state opened load
opens = refl

abbrev ops : List Op
ops = resets (some rename) "ak-new" 1 ∷ pends none true ∷ []

clean : (calls ops empty_state).dirty ≡ false
unfolding calls call set_restart_pending same set_reset flush save_state save
clean = refl

calls_saved_example :
    stored_resets (calls ops empty_state).file ≡ some (calls ops empty_state).resets
calls_saved_example = calls_saved no_file empty_state ops opens clean

-- A panel that does what it is asked for, and a disk that fails every save.
abbrev willing : World ℕ
willing = record {
  inbounds = λ w. (w, ok (inbound (admin ∷ []) ∷ []));
  restart = λ w. (w, true);
  reset_traffic = λ id e w. (w, true);
  write = λ id a w. (w, true);
  fault = λ w. (w, some rename);
  parse_float = no_number;
  key_size = no_number;
}

abbrev wanted : Parsed
wanted = record {
  codes = [];
  targets = (at 1, fresh ∷ []) ∷ [];
  keys = (at 1, "1") ∷ [];
  held = [];
}

abbrev start : Run ℕ
start = record { world = 0; state = empty_state; executed = [] }

applies-OnceRun_example :
    Once
      (applies willing (wanted ∷ wanted ∷ []) start).state.resets
      (applies willing (wanted ∷ wanted ∷ []) start).executed
applies-OnceRun_example = applies-OnceRun willing (wanted ∷ wanted ∷ []) start refl

-- The only client of an inbound is replaced: it is disabled, since the panel keeps the last one, and
-- once the new one is there the next plan deletes it, so that what was written is not confirmed.
abbrev disabled : Fields
disabled =
    ("enable", flag false) ∷ ("auth", text "old-secret-old-secret") ∷ ("email", text "ak-old") ∷ []

abbrev created : Fields
created = put_fields (fields_of "hysteria2" [] fresh) (new_client fresh)

replaces :
    plan no_number no_number (inbound (old ∷ [])) (fresh ∷ [])
    ≡ ok (update "old-secret-old-secret" disabled ∷ add created ∷ [])
unfolding plan plan_clients owned_of is_owned text_of get put delete foreign_of identity has_text
    credential_field compatible misfit ss2022 owned_conflict target_conflict target_has unwanted
    owned_at is_enabled removals enabled fields_of put_fields new_client same_number same_value
    merge_fields client_actions all_actions used_map used_of sort insert has_prefix is_prefix
    String-discrete
replaces = refl

unconfirmed :
    plan no_number no_number (inbound (disabled ∷ created ∷ [])) (fresh ∷ [])
    ≡ ok (delete_client "old-secret-old-secret" ∷ [])
unfolding plan plan_clients owned_of is_owned text_of get put delete foreign_of identity has_text
    credential_field compatible misfit ss2022 owned_conflict target_conflict target_has unwanted
    owned_at is_enabled removals enabled fields_of put_fields new_client same_number same_value
    merge_fields client_actions all_actions used_map used_of sort insert has_prefix is_prefix
    String-discrete Value-discrete
unconfirmed = refl

-- A restart is still due, as the state knows, and the file no longer says so: the save that cleared
-- it failed at its last step, and the next write of a Shadowsocks 2022 inbound saves nothing.
abbrev lost : List Op
lost = pends none true ∷ pends (some sync_directory) false ∷ pends none true ∷ []

lost_restart :
    ((calls lost empty_state).restart_pending ≡ true)
    × (open_state false (calls lost empty_state).file
        ≡ some (record empty_state { file = (calls lost empty_state).file }))
unfolding calls call set_restart_pending same save_state save open_state opened load
lost_restart = (refl, refl)
