-- ===== src/Serde/Defaults.antt =====
-- wincode/src/serde.rs: the entry points without a configuration.
use wincode.Prelude.{ℕ, ◌≡◌, refl, List, Outcome}
use wincode.Error.{ReadError}
use wincode.Reader.{Reader, Read, slice, slice_mut}
use wincode.Config.{default_config, deserialization_size_limit}
use wincode.Schema.{Schema}
use wincode.Serde
use wincode.Serde.{
  serialize_into, serialized_size, serialize, limit_slice, limit_slice_mut, limit_generic,
}

module _ {ℓ} {A : Type ℓ} (s : Schema A) where
  unfoldable pub default_deserialize : List ℕ → Outcome ReadError A
  default_deserialize src = (s.get (slice src)).0

  unfoldable pub default_deserialize_mut : List ℕ → Outcome ReadError A
  default_deserialize_mut src = (s.get (slice_mut src)).0

  unfoldable pub default_deserialize_from : Read A
  default_deserialize_from src = s.get src

  unfoldable pub default_deserialize_exact : List ℕ → Outcome ReadError A
  default_deserialize_exact src = Serde.deserialize_exact default_config s src

  -- The entry points that go to the schema directly agree with those that apply the default
  -- configuration, which sets no limit.
  pub default_deserialize-deserialize :
      (src : List ℕ) (r : Reader)
      → (default_deserialize src ≡ Serde.deserialize default_config s src)
        × (default_deserialize_mut src ≡ Serde.deserialize_mut default_config s src)
        × (default_deserialize_from r ≡ Serde.deserialize_from default_config s r)
        × (default_deserialize_exact src ≡ Serde.deserialize_exact default_config s src)
  unfolding default_deserialize default_deserialize_mut default_deserialize_from
      default_deserialize_exact Serde.deserialize Serde.deserialize_mut Serde.deserialize_from
      limit_slice limit_slice_mut limit_generic deserialization_size_limit
  default_deserialize-deserialize src r = (refl, refl, refl, refl)
