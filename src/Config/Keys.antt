-- ===== src/Config/Keys.antt =====
-- The keys of the configuration file: srv/config.h and srv/config.cpp.
use lau_sim.Base.{ℕ, List, [], ◌∷◌, Bytes, codes, if◌then◌else◌}
use lau_sim.Libc.Text.{c_str}
use lau_sim.Libc.Case.{strcase_eq}

abbrev pub config_id : ℕ
config_id = 0

abbrev pub libs_id : ℕ
libs_id = 1

abbrev pub none_id : ℕ
none_id = 65535

abbrev pub decl_id : ℕ
decl_id = 256

abbrev pub com_actor_id : ℕ
com_actor_id = 256

abbrev pub com_notify_id : ℕ
com_notify_id = 257

abbrev pub logger_id : ℕ
logger_id = 258

abbrev pub manager_id : ℕ
manager_id = 259

abbrev pub com_all_id : ℕ
com_all_id = 260

abbrev pub tic_id : ℕ
tic_id = 261

abbrev pub tokenids : List (Bytes × ℕ)
tokenids =
    (codes "[library]", libs_id)
    ∷ (codes "[lib]", libs_id)
    ∷ (codes "[libs]", libs_id)
    ∷ (codes "[config]", config_id)
    ∷ (codes "com-actor", com_actor_id)
    ∷ (codes "com_actor", com_actor_id)
    ∷ (codes "actor", com_actor_id)
    ∷ (codes "com-notify", com_notify_id)
    ∷ (codes "com_notify", com_notify_id)
    ∷ (codes "notify", com_notify_id)
    ∷ (codes "com", com_all_id)
    ∷ (codes "logger", logger_id)
    ∷ (codes "log", logger_id)
    ∷ (codes "fault-manager", manager_id)
    ∷ (codes "fault_manager", manager_id)
    ∷ (codes "fault", manager_id)
    ∷ (codes "manager", manager_id)
    ∷ (codes "tic", tic_id)
    ∷ (codes "tik", tic_id)
    ∷ []

unfoldable pub find_token : Bytes → List (Bytes × ℕ) → ℕ
unfolding strcase_eq
find_token tk [] = none_id
find_token tk ((name, id) ∷ items) = if strcase_eq tk name then id else find_token tk items

unfoldable pub get_token_identifyer : Bytes → ℕ
unfolding find_token c_str
get_token_identifyer tk = find_token (c_str tk) tokenids
