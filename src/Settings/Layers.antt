-- ===== src/Settings/Layers.antt =====
-- `Settings::new` of src/settings.rs: which layer a setting comes from, and what its type allows.
use lora_mesh_rs.Prelude.{◌≡◌, refl, ap, fun_ext, false, [], ◌∷◌, Option, none, some, bytes_eq}
use lora_mesh_rs.Prelude.Outcome.{Outcome, ok, panic, unwrap_none, ◌>>=◌, expect}
use lora_mesh_rs.Prelude.HashMap
use lora_mesh_rs.Prelude.HashMap.{HashMap}
use lora_mesh_rs.Prelude.Text.{codes}
use lora_mesh_rs.Settings.{
  Settings, Key, or_else, ConfigCrate, deserialize, set_defaults, conf_file, env_source, new,
}

module _ ⦃crate : ConfigCrate⦄ where
  -- The defaults, the last first.
  abbrev pub default_table : HashMap Key crate.Value
  default_table =
      (codes "maxhops", crate.of_int 2)
      ∷ (codes "chunktimeout", crate.of_int 10000)
      ∷ (codes "txslot", crate.of_int 1000)
      ∷ (codes "maxpacketsize", crate.of_int 200)
      ∷ (codes "radiocfg", crate.of_none)
      ∷ (codes "radioport", crate.of_text (codes "/dev/ttyUSB0"))
      ∷ (codes "isgateway", crate.of_bool false)
      ∷ (codes "debug", crate.of_bool false)
      ∷ (codes "nodeid", crate.of_int 0)
      ∷ []

  -- The environment first, then the file, then the defaults.
  abbrev pub layered :
      (Key → Option crate.Value) → (Key → Option crate.Value) → Key → Option crate.Value
  layered env conf k = or_else (env k) (or_else (conf k) (HashMap.get k default_table))

  -- What `Settings::new` returns, by what the file and the environment give.
  abbrev pub settled :
      Option (Key → Option crate.Value)
      → Option (Key → Option crate.Value)
      → Outcome (Option Settings)
  settled none env = ok none
  settled (some conf) none = panic unwrap_none
  settled (some conf) (some env) = ok (deserialize (layered env conf))

  default_of-more :
      {c : crate.Config} (m : HashMap Key crate.Value) (j k : Key) (v : crate.Value)
      → crate.default_of c k ≡ HashMap.get k m
      → crate.default_of (crate.set_default c j v) k ≡ HashMap.get k ((j, v) ∷ m)
  unfolding HashMap.get
  default_of-more {c} m j k v h = rw (crate.default_of-set_default c j k v, h)

  default_of-set_defaults :
      (k : Key) → crate.default_of (set_defaults crate.empty) k ≡ HashMap.get k default_table
  unfolding set_defaults
  default_of-set_defaults k = default_of-more _ _ k _ (
      default_of-more _ _ k _ (
        default_of-more _ _ k _ (
          default_of-more _ _ k _ (
            default_of-more _ _ k _ (
              default_of-more _ _ k _ (
                default_of-more _ _ k _ (
                  default_of-more _ _ k _ (
                    default_of-more _ _ k _ (unfold HashMap.get in crate.default_of-empty k)))))))))

  given-set_defaults : (k : Key) → crate.given (set_defaults crate.empty) k ≡ none
  unfolding set_defaults
  given-set_defaults k = rw (
    crate.given-set_default,
    crate.given-set_default,
    crate.given-set_default,
    crate.given-set_default,
    crate.given-set_default,
    crate.given-set_default,
    crate.given-set_default,
    crate.given-set_default,
    crate.given-set_default,
    crate.given-empty k,
  )

  or_else-none : {A : Type 0} (o : Option A) → or_else o none ≡ o
  or_else-none none = refl
  or_else-none (some a) = refl

  or_else_assoc :
      {A : Type 0} (a b c : Option A) → or_else (or_else a b) c ≡ or_else a (or_else b c)
  or_else_assoc none b c = refl
  or_else_assoc (some a) b c = refl

  -- A key that both sources were merged over the defaults.
  get-layered :
      (c1 c2 : crate.Config) (conf env : Key → Option crate.Value)
      → ((k : Key) → crate.given c1 k ≡ or_else (conf k) (crate.given (set_defaults crate.empty) k))
      → ((k : Key) → crate.default_of c1 k ≡ crate.default_of (set_defaults crate.empty) k)
      → ((k : Key) → crate.given c2 k ≡ or_else (env k) (crate.given c1 k))
      → ((k : Key) → crate.default_of c2 k ≡ crate.default_of c1 k)
      → (k : Key) → crate.get c2 k ≡ layered env conf k
  get-layered c1 c2 conf env g1 d1 g2 d2 k =
      rw
        (
          crate.get_lem c2 k,
          g2 k,
          g1 k,
          given-set_defaults k,
          or_else-none (conf k),
          d2 k,
          d1 k,
          default_of-set_defaults k,
        )
        (or_else_assoc (env k) (conf k) (HashMap.get k default_table))

  with_env :
      (c : crate.Config) (conf : Key → Option crate.Value)
      (seen : Option (Key → Option crate.Value))
      → crate.collect env_source ≡ seen
      → ((k : Key) → crate.given c k ≡ or_else (conf k) (crate.given (set_defaults crate.empty) k))
      → ((k : Key) → crate.default_of c k ≡ crate.default_of (set_defaults crate.empty) k)
      → (expect (crate.merge c env_source) unwrap_none >>= λ c'. ok (deserialize (crate.get c')))
        ≡ settled (some conf) seen
  with_env c conf none h g d = rw (crate.merge-none c env_source h)
  with_env c conf (some env) h g d =
      let (c2, merged, g2, d2) = crate.merge-some c env_source env h in
      rw merged (ap (λ look. ok (deserialize look)) (fun_ext (get-layered c c2 conf env g d g2 d2)))

  with_file :
      (seen : Option (Key → Option crate.Value))
      → crate.collect conf_file ≡ seen
      → new ≡ settled seen (crate.collect env_source)
  unfolding new
  with_file none h = rw (new, crate.merge-none (set_defaults crate.empty) conf_file h)
  with_file (some conf) h =
      let (c1, merged, g, d) = crate.merge-some (set_defaults crate.empty) conf_file conf h in
      rw (new, merged) (with_env c1 conf (crate.collect env_source) refl g d)

  -- `Settings::new` is an `Err` where the file is there and cannot be read, a panic where the
  -- environment cannot be read, and otherwise what the types of the fields make of the values: for
  -- each key that of the environment, else that of the file, else the default.
  pub new_lem : new ≡ settled (crate.collect conf_file) (crate.collect env_source)
  new_lem = with_file (crate.collect conf_file) refl
