-- ===== src/Impls/Addresses.antt =====
-- The network addresses of wincode/src/schema/impls.rs. An address is its octets.
pub mod Laws
pub mod Versions
use wincode.Prelude.{
  ℕ, false, none, ◌==◌, ◌⊎◌, inl, inr, List, [], ◌∷◌, Outcome, ok, bind, wrapping_add,
  if◌then◌else◌,
}
use wincode.Error.{ReadError, WriteError}
use wincode.Reader.{Read, pure, raise, ◌>>=◌, take_array}
use wincode.Writer.{Write, ◌▸◌, write}
use wincode.IntEncoding.{u16}
use wincode.TypeMeta.{static, dynamic, join_types}
use wincode.Config.{Configuration, wide}
use wincode.Ints.{int_meta, int_size_of, int_write, int_read}
use wincode.TagEncoding.{size_of_from_u32, write_from_u32, read_tag}
use wincode.Schema.{Schema}

-- `Ipv4Addr` has 4 octets, and `Ipv6Addr` 16.
unfoldable pub octets_schema : ℕ → Schema (List ℕ)
octets_schema n = record {
  write_meta = static n false;
  read_meta = static n false;
  mem_size = n;
  to_memory = none;
  from_memory = none;
  size_of = λ octets. ok n;
  write = λ octets. write octets;
  get = take_array n;
}

abbrev pub ipv4_schema : Schema (List ℕ)
ipv4_schema = octets_schema 4

abbrev pub ipv6_schema : Schema (List ℕ)
ipv6_schema = octets_schema 16

-- `SocketAddrV6`; `SocketAddrV4` is the octets and the port.
pub record SocketV6 : Type 0 where
  pub ip : List ℕ
  pub port : ℕ
  pub flowinfo : ℕ
  pub scope_id : ℕ

module _ (c : Configuration) where
  abbrev pub port_size_of : ℕ → ℕ → Outcome WriteError ℕ
  port_size_of n port = bind (int_size_of c (wide u16) port) (λ k. ok (wrapping_add n k))

  unfoldable pub socket_v4_schema : ℕ → Schema (List ℕ × ℕ)
  socket_v4_schema size_in_memory = record {
    write_meta = join_types (static 4 false ∷ int_meta c (wide u16) ∷ []);
    read_meta = join_types (static 4 false ∷ int_meta c (wide u16) ∷ []);
    mem_size = size_in_memory;
    to_memory = none;
    from_memory = none;
    size_of = λ a. port_size_of 4 a.1;
    write = λ a. ipv4_schema.write a.0 ▸ int_write c (wide u16) a.1;
    get = (do ip ← ipv4_schema.get; port ← int_read c (wide u16); pure (ip, port));
  }

  -- The flow and the scope are not encoded, and read as zero.
  unfoldable pub socket_v6_schema : ℕ → Schema SocketV6
  socket_v6_schema size_in_memory = record {
    write_meta = join_types (static 16 false ∷ int_meta c (wide u16) ∷ []);
    read_meta = join_types (static 16 false ∷ int_meta c (wide u16) ∷ []);
    mem_size = size_in_memory;
    to_memory = none;
    from_memory = none;
    size_of = λ a. port_size_of 16 a.port;
    write = λ a. ipv6_schema.write a.ip ▸ int_write c (wide u16) a.port;
    get = (do
      ip ← ipv6_schema.get
      port ← int_read c (wide u16)
      pure (record { ip = ip; port = port; flowinfo = 0; scope_id = 0 }));
  }

module _ {A B : Type 0} (c : Configuration) (v4 : Schema A) (v6 : Schema B) where
  unfoldable pub versions_size_of : A ⊎ B → Outcome WriteError ℕ
  versions_size_of (inl a) =
      bind (size_of_from_u32 c 0) (λ n. bind (v4.size_of a) (λ k. ok (wrapping_add n k)))
  versions_size_of (inr a) =
      bind (size_of_from_u32 c 1) (λ n. bind (v6.size_of a) (λ k. ok (wrapping_add n k)))

  unfoldable pub versions_write : A ⊎ B → Write
  versions_write (inl a) = write_from_u32 c 0 ▸ v4.write a
  versions_write (inr a) = write_from_u32 c 1 ▸ v6.write a

  -- `match tag`
  unfoldable pub versions_from_tag : ℕ → Read (A ⊎ B)
  versions_from_tag tag =
      if tag == 0
      then (do a ← v4.get; pure (inl a))
      else if tag == 1
      then (do a ← v6.get; pure (inr a))
      else raise (ReadError.invalid_tag_encoding tag)

  -- `inl` is `V4` and `inr` is `V6`.
  unfoldable pub versions_schema : ℕ → Schema (A ⊎ B)
  versions_schema size_in_memory = record {
    write_meta = dynamic;
    read_meta = dynamic;
    mem_size = size_in_memory;
    to_memory = none;
    from_memory = none;
    size_of = versions_size_of;
    write = versions_write;
    get = (do tag ← read_tag c; versions_from_tag tag);
  }

module _ (c : Configuration) where
  abbrev pub ip_addr_schema : ℕ → Schema (List ℕ ⊎ List ℕ)
  ip_addr_schema size_in_memory = versions_schema c ipv4_schema ipv6_schema size_in_memory

  -- By the sizes in memory of the two versions and of the whole.
  abbrev pub socket_addr_schema : ℕ → ℕ → ℕ → Schema ((List ℕ × ℕ) ⊎ SocketV6)
  socket_addr_schema v4_size v6_size size_in_memory =
      versions_schema c (socket_v4_schema c v4_size) (socket_v6_schema c v6_size) size_in_memory
