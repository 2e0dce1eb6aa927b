-- ===== src/Examples/Config.antt =====
-- A stand-in for the crate `config`, which src/settings.rs calls: tables of values, the first entry
-- of a key counts.
use lora_mesh_rs.Prelude.{
  ℕ, ◌<◌, ◌^◌, ◌≡◌, refl, ap, ◌∙◌, Bool, true, false, List, [], ◌∷◌, ◌++◌, Option, none, some, ltb,
  bytes_beq, bytes_eq, if◌then◌else◌, arith,
}
use lora_mesh_rs.Prelude.Outcome.{ok}
use lora_mesh_rs.Prelude.HashMap
use lora_mesh_rs.Prelude.HashMap.{HashMap}
use lora_mesh_rs.Prelude.Text.{codes}
use lora_mesh_rs.Settings
use lora_mesh_rs.Settings.{Settings, defaults, Key, or_else, ConfigCrate, deserialize, set_defaults}
use lora_mesh_rs.Settings.Layers.{new_lem}
use lora_mesh_rs.UnitTests.{settings_load}

pub data Entry : Type 0 where
  integer : ℕ → Entry
  boolean : Bool → Entry
  text : List ℕ → Entry
  nil : Entry

abbrev pub Table : Type 0
Table = HashMap Key Entry

pub record Layers : Type 0 where
  pub above : Table
  pub under : Table

abbrev looked_up : Table → Key → Option Entry
looked_up m k = HashMap.get k m

abbrev get : Layers → Key → Option Entry
get c k = or_else (looked_up c.above k) (looked_up c.under k)

abbrev merge : Layers → Option Table → Option Layers
merge c none = none
merge c (some m) = some (record c { above = m ++ c.above })

abbrev collect : Option Table → Option (Key → Option Entry)
collect none = none
collect (some m) = some (looked_up m)

abbrev int_below : ℕ → Entry → Option ℕ
int_below bound (integer n) = if ltb n bound then some n else none
int_below bound _ = none

abbrev into_bool : Entry → Option Bool
into_bool (boolean b) = some b
into_bool _ = none

abbrev into_path : Entry → Option (List ℕ)
into_path (text t) = some t
into_path _ = none

abbrev into_optional : Entry → Option (Option (List ℕ))
into_optional (text t) = some (some t)
into_optional nil = some none
into_optional _ = none

pub int_below-integer : (bound n : ℕ) → n < bound → int_below bound (integer n) ≡ some n
int_below-integer bound n h = ground arith

pub int_below_bound : (bound : ℕ) (v : Entry) (n : ℕ) → int_below bound v ≡ some n → n < bound
int_below_bound bound (integer m) n h = ground arith
int_below_bound bound (boolean b) n h = cc
int_below_bound bound (text t) n h = cc
int_below_bound bound nil n h = cc

pub looked_up-empty : (k : Key) → looked_up [] k ≡ none
unfolding HashMap.get
looked_up-empty k = refl

pub looked_up-more :
    (m : Table) (j k : Key) (v : Entry)
    → looked_up ((j, v) ∷ m) k ≡ (if bytes_beq j k then some v else looked_up m k)
unfolding HashMap.get
looked_up-more m j k v = refl

if_or :
    (b : Bool) (v : Entry) (o p : Option Entry)
    → (if b then some v else or_else o p) ≡ or_else (if b then some v else o) p
if_or true v o p = refl
if_or false v o p = refl

looked_up-append :
    (m n : Table) (k : Key) → looked_up (m ++ n) k ≡ or_else (looked_up m k) (looked_up n k)
unfolding HashMap.get
looked_up-append [] n k = refl
looked_up-append ((j, v) ∷ m) n k =
    ap (λ o. if bytes_beq j k then some v else o) (looked_up-append m n k)
    ∙ if_or (bytes_beq j k) v (looked_up m k) (looked_up n k)

pub merged :
    (c : Layers) (s : Option Table) (table : Key → Option Entry)
    → collect s ≡ some table
    → (c' : Layers) × (merge c s ≡ some c')
      × ((k : Key) → looked_up c'.above k ≡ or_else (table k) (looked_up c.above k))
      × ((k : Key) → looked_up c'.under k ≡ looked_up c.under k)
merged c none table h = cc
merged c (some m) table h =
    let same : looked_up m ≡ table = cc in
    (
      record c { above = m ++ c.above },
      refl,
      (λ k.
          looked_up-append m c.above k
          ∙ ap (λ (t : Key → Option Entry). or_else (t k) (looked_up c.above k)) same),
      λ k. refl,
    )

pub not_merged : (c : Layers) (s : Option Table) → collect s ≡ none → merge c s ≡ none
not_merged c none h = refl
not_merged c (some m) h = cc

-- What the file and the environment hold, if they can be read.
abbrev pub holding : Option Table → Option Table → ConfigCrate
holding conf env = record {
  Config = Layers;
  Value = Entry;
  Source = Option Table;
  empty = record { above = []; under = [] };
  set_default = λ c k v. record c { under = (k, v) ∷ c.under };
  merge = merge;
  get = get;
  file = λ path required. conf;
  environment = λ prefix. env;
  of_int = integer;
  of_bool = boolean;
  of_text = text;
  of_none = nil;
  into_u8 = int_below (2 ^ 8);
  into_u64 = int_below (2 ^ 64);
  into_usize = int_below (2 ^ 64);
  into_bool = into_bool;
  into_path = into_path;
  into_optional = into_optional;
  collect = collect;
  given = λ c k. looked_up c.above k;
  default_of = λ c k. looked_up c.under k;
  get_lem = λ c k. refl;
  given-empty = looked_up-empty;
  default_of-empty = looked_up-empty;
  given-set_default = λ c j k v. refl;
  default_of-set_default = λ c j k v. looked_up-more c.under j k v;
  merge-none = not_merged;
  merge-some = merged;
  u8-int = int_below-integer (2 ^ 8);
  u64-int = λ n h. int_below-integer (2 ^ 64) n (omega (arith, h));
  usize-int = λ n h. int_below-integer (2 ^ 64) n (omega (arith, h));
  bool-bool = λ b. refl;
  path-text = λ t. refl;
  optional-none = refl;
  u8_bound = int_below_bound (2 ^ 8);
  u64_bound = int_below_bound (2 ^ 64);
  usize_bound = int_below_bound (2 ^ 64);
}

abbrev pub bare : ConfigCrate
bare = holding (some []) (some [])

settings_load_passes : settings_load ⦃crate = bare⦄ ≡ ok tt
unfolding settings_load set_defaults deserialize HashMap.get
settings_load_passes = refl

-- The environment sets the id and the hops, the file the hops and the gateway.
abbrev mixed : ConfigCrate
mixed =
    holding (some ((codes "maxhops", integer 8) ∷ (codes "isgateway", boolean true) ∷ []))
      (some ((codes "nodeid", integer 7) ∷ (codes "maxhops", integer 4) ∷ []))

abbrev mixed_settings : Settings
mixed_settings = record defaults { nodeid = 7; isgateway = true; maxhops = 4 }

new_lem_example : Settings.new ⦃crate = mixed⦄ ≡ ok (some mixed_settings)
unfolding deserialize HashMap.get defaults
new_lem_example = new_lem ⦃crate = mixed⦄

-- The settings of a gateway.
abbrev pub for_gateway : ConfigCrate
for_gateway =
    holding
      (some (
        (codes "nodeid", integer 1)
        ∷ (codes "isgateway", boolean true)
        ∷ (codes "radiocfg", text (codes "init.txt"))
        ∷ []))
      (some [])
