-- ===== src/Config/Load.antt =====
-- The loading of the configuration and its migrations, internal/config/config.go. The JSON decoder is
-- left out: what it makes of the file is an argument.
use openqiara.Prelude.{
  ℕ, Bool, true, false, ◌&&◌, not, Option, none, some, List, [], ◌∷◌, ◌==◌, if◌then◌else◌,
}
use openqiara.Config.Types.{AdminConfig, Config, KpdCode, SensorEntry}
use openqiara.Config.Store.{Store}
use Prim.Native.String.{String}
use openqiara.Config.Login.{is_set, hash_admin_password}

-- The fields of an older file. A sensor may have no `night_alarm`.
pub record LegacyNight : Type 0 where
  pub id : ℕ
  pub night_alarm : Option Bool

pub record LegacyCode : Type 0 where
  pub id : ℕ
  pub code : List ℕ
  pub label : String

-- What is read: `parsed` has the file's configuration, and its older fields where they can be read;
-- `malformed` what the decoder had set before its error.
pub data File : Type 0 where
  missing unreadable : File
  malformed : Config → File
  parsed : Config → Option (List LegacyNight) → Option (List LegacyCode) → File

unfoldable pub set_night : ℕ → Bool → List SensorEntry → List SensorEntry
set_night id flag [] = []
set_night id flag (se ∷ ses) =
    (if se.id == id then record se { night_allowed = not flag } else se) ∷ set_night id flag ses

unfoldable pub migrate_night_alarm : List LegacyNight → List SensorEntry → List SensorEntry
unfolding set_night
migrate_night_alarm [] ses = ses
migrate_night_alarm (l ∷ ls) ses = elim l.night_alarm [
  | none ↦ migrate_night_alarm ls ses
  | some flag ↦ migrate_night_alarm ls (set_night l.id flag ses)
]

abbrev pub no_codes : List KpdCode → Bool
no_codes [] = true
no_codes (c ∷ cs) = false

unfoldable pub set_code : LegacyCode → List SensorEntry → List SensorEntry
set_code l [] = []
set_code l (se ∷ ses) =
    (if se.id == l.id && no_codes se.kpd_codes
      then record se { kpd_codes = record { password = l.code; label = l.label } ∷ [] }
      else se)
    ∷ set_code l ses

unfoldable pub migrate_kpd_code : List LegacyCode → List SensorEntry → List SensorEntry
unfolding set_code
migrate_kpd_code [] ses = ses
migrate_kpd_code (l ∷ ls) ses =
    if is_set l.code then migrate_kpd_code ls (set_code l ses) else migrate_kpd_code ls ses

abbrev pub migrate {ℓ} :
    {A : Type ℓ}
    → (List A → List SensorEntry → List SensorEntry)
    → Option (List A)
    → List SensorEntry
    → List SensorEntry
migrate f none ses = ses
migrate f (some ls) ses = f ls ses

abbrev pub default_config : Config
default_config = record {
  admin = record { password_hash = []; password = [] };
  alarm = record {
    mode = "";
    alarmo_command_topic = "";
    alarmo_state_topic = "";
    siren_sounds = "";
    arming_delay_seconds = 0;
    pending_delay_seconds = 0;
    wail_duration_seconds = 0;
  };
  sensors = [];
  deleted_ids = [];
  radio_next_addr = 0;
  shutter_closed = false;
}

module _ (generate : List ℕ → Option (List ℕ)) where
  -- The password of an older file is hashed.
  unfoldable pub migrate_admin : AdminConfig → AdminConfig
  unfolding hash_admin_password
  migrate_admin a =
      if is_set a.password && not (is_set a.password_hash)
      then elim (hash_admin_password generate a.password) [
        | none ↦ a
        | some hash ↦ record { password_hash = hash; password = [] }
      ]
      else a

  -- The result is whether there is no error.
  unfoldable pub load : File → Store → Store × Bool
  unfolding migrate_night_alarm migrate_kpd_code migrate_admin
  load missing s = (record s { cfg = default_config }, true)
  load unreadable s = (s, false)
  load (malformed cfg) s = (record s { cfg = cfg }, false)
  load (parsed cfg nights codes) s = (
    record s {
      cfg = record cfg {
        admin = migrate_admin cfg.admin;
        sensors = migrate migrate_kpd_code codes (migrate migrate_night_alarm nights cfg.sensors);
      };
    },
    true,
  )
