-- ===== src/Settings/Typed.antt =====
-- What `Settings::new` of src/settings.rs gives: values of the types of the fields, and the
-- defaults where nothing else is set.
use lora_mesh_rs.Prelude.{
  ℕ, ◌<◌, ◌^◌, ◌≡◌, refl, sym, ap, ◌∙◌, fun_ext, subst, false, Option, none, some, arith, bytes_eq,
}
use lora_mesh_rs.Prelude.Outcome.{ok, ok_inj, some_inj}
use lora_mesh_rs.Prelude.HashMap
use lora_mesh_rs.Prelude.Text.{codes}
use lora_mesh_rs.Settings.{
  Settings, defaults, Key, ConfigCrate, ◌>>?◌, optional, deserialize, conf_file, env_source, new,
}
use lora_mesh_rs.Settings.Layers.{default_table, layered, settled, new_lem}

-- `u8`, `u64` and `usize`, of at most 64 bits.
pub record IsTyped (s : Settings) : Type 0 where
  pub nodeid_fits : s.nodeid < 2 ^ 8
  pub maxhops_fits : s.maxhops < 2 ^ 8
  pub maxpacketsize_fits : s.maxpacketsize < 2 ^ 64
  pub txslot_fits : s.txslot < 2 ^ 64
  pub chunktimeout_fits : s.chunktimeout < 2 ^ 64

then_inv :
    {A B : Type 0} (o : Option A) (f : A → Option B) {b : B}
    → (o >>? f) ≡ some b
    → (a : A) × (o ≡ some a) × (f a ≡ some b)
then_inv none f h = cc
then_inv (some a) f h = (a, refl, h)

module _ ⦃crate : ConfigCrate⦄ where
  fits_u8 : (o : Option crate.Value) (n : ℕ) → (o >>? crate.into_u8) ≡ some n → n < 2 ^ 8
  fits_u8 o n h = let (v, _, e) = then_inv o crate.into_u8 h in crate.u8_bound v n e

  fits_u64 : (o : Option crate.Value) (n : ℕ) → (o >>? crate.into_u64) ≡ some n → n < 2 ^ 64
  fits_u64 o n h = let (v, _, e) = then_inv o crate.into_u64 h in crate.u64_bound v n e

  fits_usize : (o : Option crate.Value) (n : ℕ) → (o >>? crate.into_usize) ≡ some n → n < 2 ^ 64
  fits_usize o n h = let (v, _, e) = then_inv o crate.into_usize h in crate.usize_bound v n e

  deserialize-IsTyped :
      (look : Key → Option crate.Value) (s : Settings) → deserialize look ≡ some s → IsTyped s
  unfolding deserialize
  deserialize-IsTyped look s h =
      let (nodeid, e1, h1) = then_inv (look (codes "nodeid") >>? crate.into_u8) _ h in
      let (debug, e2, h2) = then_inv (look (codes "debug") >>? crate.into_bool) _ h1 in
      let (isgateway, e3, h3) = then_inv (look (codes "isgateway") >>? crate.into_bool) _ h2 in
      let (port, e4, h4) = then_inv (look (codes "radioport") >>? crate.into_path) _ h3 in
      let (cfg, e5, h5) = then_inv (optional (look (codes "radiocfg")) crate.into_optional) _ h4 in
      let (size, e6, h6) = then_inv (look (codes "maxpacketsize") >>? crate.into_usize) _ h5 in
      let (slot, e7, h7) = then_inv (look (codes "txslot") >>? crate.into_u64) _ h6 in
      let (timeout, e8, h8) = then_inv (look (codes "chunktimeout") >>? crate.into_u64) _ h7 in
      let (hops, e9, h9) = then_inv (look (codes "maxhops") >>? crate.into_u8) _ h8 in
      subst IsTyped (some_inj h9) (record {
        nodeid_fits = fits_u8 (look (codes "nodeid")) nodeid e1;
        maxhops_fits = fits_u8 (look (codes "maxhops")) hops e9;
        maxpacketsize_fits = fits_usize (look (codes "maxpacketsize")) size e6;
        txslot_fits = fits_u64 (look (codes "txslot")) slot e7;
        chunktimeout_fits = fits_u64 (look (codes "chunktimeout")) timeout e8;
      })

  settled-IsTyped :
      (conf env : Option (Key → Option crate.Value)) (s : Settings)
      → settled conf env ≡ ok (some s)
      → IsTyped s
  settled-IsTyped none env s h = cc
  settled-IsTyped (some conf) none s h = cc
  settled-IsTyped (some conf) (some env) s h = deserialize-IsTyped (layered env conf) s (ok_inj h)

  -- Settings that were loaded have values of the types of their fields.
  pub new-IsTyped : (s : Settings) → new ≡ ok (some s) → IsTyped s
  new-IsTyped s h =
      settled-IsTyped (crate.collect conf_file) (crate.collect env_source) s (sym new_lem ∙ h)

  deserialize-defaults : deserialize (λ k. HashMap.get k default_table) ≡ some defaults
  unfolding deserialize HashMap.get defaults
  deserialize-defaults = rw (
    crate.u8-int 0 (omega arith),
    crate.bool-bool false,
    crate.path-text (codes "/dev/ttyUSB0"),
    crate.optional-none,
    crate.usize-int 200 (omega arith),
    crate.u64-int 1000 (omega arith),
    crate.u64-int 10000 (omega arith),
    crate.u8-int 2 (omega arith),
  )

  -- Where neither the file nor the environment sets anything, `Settings::new` returns the defaults.
  pub new-defaults :
      (conf env : Key → Option crate.Value)
      → crate.collect conf_file ≡ some conf
      → crate.collect env_source ≡ some env
      → ((k : Key) → conf k ≡ none)
      → ((k : Key) → env k ≡ none)
      → new ≡ ok (some defaults)
  new-defaults conf env f e unset bare =
      new_lem
      ∙ ap (λ t. settled t (crate.collect env_source)) f
      ∙ ap (settled (some conf)) e
      ∙ ap (λ look. ok (deserialize look)) (fun_ext (λ k. rw (bare k, unset k)))
      ∙ ap ok deserialize-defaults
