-- ===== src/Settings.antt =====
-- src/settings.rs: the settings of a node, and where they come from. The crate `config`, which
-- reads /etc/loramesh/conf.yml and the environment, is an interface. A path is its bytes.
pub mod Layers
pub mod Typed
use lora_mesh_rs.Prelude.{
  ℕ, ◌<◌, ◌^◌, ◌≡◌, Bool, true, false, List, Option, none, some, bytes_beq, if◌then◌else◌,
}
use lora_mesh_rs.Prelude.Outcome.{Outcome, ok, unwrap_none, ◌>>=◌, expect}
use lora_mesh_rs.Prelude.Text.{codes}

pub record Settings : Type 0 where
  pub nodeid : ℕ
  pub debug : Bool
  pub isgateway : Bool
  pub radioport : List ℕ
  pub radiocfg : Option (List ℕ)
  pub maxpacketsize : ℕ
  pub txslot : ℕ
  pub chunktimeout : ℕ
  pub maxhops : ℕ

-- What the `set_default` calls of `Settings::new` amount to.
unfoldable pub defaults : Settings
defaults = record {
  nodeid = 0;
  debug = false;
  isgateway = false;
  radioport = codes "/dev/ttyUSB0";
  radiocfg = none;
  maxpacketsize = 200;
  txslot = 1000;
  chunktimeout = 10000;
  maxhops = 2;
}

abbrev pub Key : Type 0
Key = List ℕ

abbrev pub or_else : {A : Type 0} → Option A → Option A → Option A
or_else none b = b
or_else (some a) b = some a

-- The crate `config`, with the part of `serde` that reads a value as a type. A source gives a table
-- or, where it cannot be read, none. What later sources give stands before what earlier ones give,
-- and that before the defaults.
pub record ConfigCrate : Type 1 where
  pub Config : Type 0
  pub Value : Type 0
  pub Source : Type 0
  pub empty : Config
  pub set_default : Config → Key → Value → Config
  pub merge : Config → Source → Option Config
  pub get : Config → Key → Option Value
  pub file : List ℕ → Bool → Source
  pub environment : List ℕ → Source
  pub of_int : ℕ → Value
  pub of_bool : Bool → Value
  pub of_text : List ℕ → Value
  pub of_none : Value
  pub into_u8 : Value → Option ℕ
  pub into_u64 : Value → Option ℕ
  pub into_usize : Value → Option ℕ
  pub into_bool : Value → Option Bool
  pub into_path : Value → Option (List ℕ)
  pub into_optional : Value → Option (Option (List ℕ))
  pub collect : Source → Option (Key → Option Value)
  pub given : Config → Key → Option Value
  pub default_of : Config → Key → Option Value
  pub get_lem : (c : Config) (k : Key) → get c k ≡ or_else (given c k) (default_of c k)
  pub given-empty : (k : Key) → given empty k ≡ none
  pub default_of-empty : (k : Key) → default_of empty k ≡ none
  pub given-set_default :
      (c : Config) (j k : Key) (v : Value) → given (set_default c j v) k ≡ given c k
  pub default_of-set_default :
      (c : Config) (j k : Key) (v : Value)
      → default_of (set_default c j v) k ≡ (if bytes_beq j k then some v else default_of c k)
  pub merge-none : (c : Config) (s : Source) → collect s ≡ none → merge c s ≡ none
  pub merge-some :
      (c : Config) (s : Source) (table : Key → Option Value)
      → collect s ≡ some table
      → (c' : Config) × (merge c s ≡ some c')
        × ((k : Key) → given c' k ≡ or_else (table k) (given c k))
        × ((k : Key) → default_of c' k ≡ default_of c k)
  pub u8-int : (n : ℕ) → n < 2 ^ 8 → into_u8 (of_int n) ≡ some n
  pub u64-int : (n : ℕ) → n < 2 ^ 63 → into_u64 (of_int n) ≡ some n
  pub usize-int : (n : ℕ) → n < 2 ^ 15 → into_usize (of_int n) ≡ some n
  pub bool-bool : (b : Bool) → into_bool (of_bool b) ≡ some b
  pub path-text : (text : List ℕ) → into_path (of_text text) ≡ some text
  pub optional-none : into_optional of_none ≡ some none
  pub u8_bound : (v : Value) (n : ℕ) → into_u8 v ≡ some n → n < 2 ^ 8
  pub u64_bound : (v : Value) (n : ℕ) → into_u64 v ≡ some n → n < 2 ^ 64
  pub usize_bound : (v : Value) (n : ℕ) → into_usize v ≡ some n → n < 2 ^ 64

infixl 5 ◌>>?◌
-- `m?`, and a field that is not there.
abbrev pub ◌>>?◌ : {A B : Type 0} → Option A → (A → Option B) → Option B
none >>? f = none
some a >>? f = f a

-- A field of type `Option` may be missing.
abbrev pub optional : {A B : Type 0} → Option A → (A → Option (Option B)) → Option (Option B)
optional none f = some none
optional (some a) f = f a

module _ ⦃crate : ConfigCrate⦄ where
  -- `try_into`, by the derived `Deserialize`: each field is read under its name, as its type.
  unfoldable pub deserialize : (Key → Option crate.Value) → Option Settings
  deserialize look = (look (codes "nodeid") >>? crate.into_u8) >>? λ nodeid.
      (look (codes "debug") >>? crate.into_bool) >>? λ debug.
      (look (codes "isgateway") >>? crate.into_bool) >>? λ isgateway.
      (look (codes "radioport") >>? crate.into_path) >>? λ radioport.
      optional (look (codes "radiocfg")) crate.into_optional >>? λ radiocfg.
      (look (codes "maxpacketsize") >>? crate.into_usize) >>? λ maxpacketsize.
      (look (codes "txslot") >>? crate.into_u64) >>? λ txslot.
      (look (codes "chunktimeout") >>? crate.into_u64) >>? λ chunktimeout.
      (look (codes "maxhops") >>? crate.into_u8) >>? λ maxhops. some (record {
        nodeid = nodeid;
        debug = debug;
        isgateway = isgateway;
        radioport = radioport;
        radiocfg = radiocfg;
        maxpacketsize = maxpacketsize;
        txslot = txslot;
        chunktimeout = chunktimeout;
        maxhops = maxhops;
      })

  -- The `set_default` calls, in order.
  unfoldable pub set_defaults : crate.Config → crate.Config
  set_defaults c0 =
      let c1 = crate.set_default c0 (codes "nodeid") (crate.of_int 0) in
      let c2 = crate.set_default c1 (codes "debug") (crate.of_bool false) in
      let c3 = crate.set_default c2 (codes "isgateway") (crate.of_bool false) in
      let c4 = crate.set_default c3 (codes "radioport") (crate.of_text (codes "/dev/ttyUSB0")) in
      let c5 = crate.set_default c4 (codes "radiocfg") crate.of_none in
      let c6 = crate.set_default c5 (codes "maxpacketsize") (crate.of_int 200) in
      let c7 = crate.set_default c6 (codes "txslot") (crate.of_int 1000) in
      let c8 = crate.set_default c7 (codes "chunktimeout") (crate.of_int 10000) in
      crate.set_default c8 (codes "maxhops") (crate.of_int 2)

  abbrev pub conf_file : crate.Source
  conf_file = crate.file (codes "/etc/loramesh/conf.yml") false

  abbrev pub env_source : crate.Source
  env_source = crate.environment (codes "LOMESH")

  -- `Settings::new`: the `Ok`, or none for the `Err`; an environment that cannot be read is a
  -- panic.
  unfoldable pub new : Outcome (Option Settings)
  unfolding set_defaults deserialize
  new = elim (crate.merge (set_defaults crate.empty) conf_file) [
    | none ↦ ok none
    | some c ↦ (do
      c' ← expect (crate.merge c env_source) unwrap_none
      ok (deserialize (crate.get c')))
  ]
