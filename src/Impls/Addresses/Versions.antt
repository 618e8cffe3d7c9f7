-- ===== src/Impls/Addresses/Versions.antt =====
-- The laws of the addresses of either version, `IpAddr` and `SocketAddr` of
-- wincode/src/schema/impls.rs, as schemas.
use wincode.Prelude.{ℕ, ◌≤◌, ◌==◌, ◌≡◌, ap, ◌⊎◌, inl, inr, List, ◌++◌, length, ok, max_usize, arith}
use wincode.Error.{ReadError}
use wincode.Reader.{Read, ◌>>=◌}
use wincode.Reader.Reads.{Reads, Reads-bind, Reads-map}
use wincode.Reader.Safe.{
  SafeDynamic, SafeDynamic-bind, SafeDynamic-pure, SafeDynamic-raise, SafeDynamic-if,
}
use wincode.Writer.Writes.{Writes, Writes-seq}
use wincode.Config.{Configuration}
use wincode.Ints.{int_meta}
use wincode.Ints.Laws.{bytes_of}
use wincode.TagEncoding.{read_tag}
use wincode.TagEncoding.Laws.{
  IsTag, few_variants, write_from_u32-Writes, size_of_from_u32-length, read_tag-Reads,
  read_tag-SafeFor,
}
use wincode.Schema.{Schema}
use wincode.Schema.Laws.{Laws, SafeFor-SafeDynamic}
use wincode.Schema.Derived.{sum_fits}
use wincode.Impls.Scalars.Laws.{int_safe}
use wincode.Impls.Addresses.{
  ipv4_schema, ipv6_schema, SocketV6, socket_v4_schema, socket_v6_schema, versions_size_of,
  versions_write, versions_from_tag, versions_schema, ip_addr_schema, socket_addr_schema,
}
use wincode.Impls.Addresses.Laws.{octets_schema-Laws, socket_v4_schema-Laws, socket_v6_schema-Laws}

module _ {A B : Type 0} (c : Configuration) (s : Schema A) (t : Schema B) {ValidA : A → Type 0}
    {bytesA : A → List ℕ} {ValidB : B → Type 0} {bytesB : B → List ℕ} (lawsA : Laws s ValidA bytesA)
    (lawsB : Laws t ValidB bytesB) where
  abbrev tag_bytes : ℕ → List ℕ
  tag_bytes v = bytes_of c c.tag_encoding v

  abbrev pub version_bytes : A ⊎ B → List ℕ
  version_bytes (inl a) = tag_bytes 0 ++ bytesA a
  version_bytes (inr a) = tag_bytes 1 ++ bytesB a

  abbrev pub IsVersion : A ⊎ B → Type 0
  IsVersion (inl a) = ValidA a × (length (version_bytes (inl a)) ≤ max_usize)
  IsVersion (inr a) = ValidB a × (length (version_bytes (inr a)) ≤ max_usize)

  zero-IsTag : IsTag c.tag_encoding 0
  zero-IsTag = few_variants c 0 (omega arith)

  one-IsTag : IsTag c.tag_encoding 1
  one-IsTag = few_variants c 1 (omega arith)

  versions_write-Writes :
      (a : A ⊎ B) → IsVersion a → Writes (versions_write c s t a) (version_bytes a)
  unfolding versions_write
  versions_write-Writes (inl a) (h, _) =
      Writes-seq (write_from_u32-Writes c 0 zero-IsTag) (lawsA.writes a h)
  versions_write-Writes (inr a) (h, _) =
      Writes-seq (write_from_u32-Writes c 1 one-IsTag) (lawsB.writes a h)

  versions_size_of-length :
      (a : A ⊎ B) → IsVersion a → versions_size_of c s t a ≡ ok (length (version_bytes a))
  unfolding versions_size_of
  versions_size_of-length (inl a) (h, k) =
      rw (size_of_from_u32-length c 0 zero-IsTag, lawsA.sizes a h)
        (ap ok (sum_fits (tag_bytes 0) (bytesA a) k))
  versions_size_of-length (inr a) (h, k) =
      rw (size_of_from_u32-length c 1 one-IsTag, lawsB.sizes a h)
        (ap ok (sum_fits (tag_bytes 1) (bytesB a) k))

  abbrev versions_get : Read (A ⊎ B)
  versions_get = read_tag c >>= versions_from_tag c s t

  versions_get-Reads : (a : A ⊎ B) → IsVersion a → Reads versions_get (version_bytes a) a
  unfolding versions_from_tag
  versions_get-Reads (inl a) (h, _) =
      Reads-bind (versions_from_tag c s t) (read_tag-Reads c 0 zero-IsTag)
        (Reads-map inl (lawsA.reads a h))
  versions_get-Reads (inr a) (h, _) =
      Reads-bind (versions_from_tag c s t) (read_tag-Reads c 1 one-IsTag)
        (Reads-map inr (lawsB.reads a h))

  from_tag-SafeDynamic : (tag : ℕ) → SafeDynamic (versions_from_tag c s t tag)
  unfolding versions_from_tag
  from_tag-SafeDynamic tag =
      SafeDynamic-if (tag == 0)
        (SafeDynamic-bind (SafeFor-SafeDynamic s.read_meta lawsA.safe)
          (λ a. SafeDynamic-pure (inl a)))
        (SafeDynamic-if (tag == 1)
          (SafeDynamic-bind (SafeFor-SafeDynamic t.read_meta lawsB.safe)
            (λ a. SafeDynamic-pure (inr a)))
          (SafeDynamic-raise (ReadError.invalid_tag_encoding tag)))

  versions_get-SafeDynamic : SafeDynamic versions_get
  versions_get-SafeDynamic =
      SafeDynamic-bind
        (SafeFor-SafeDynamic (int_meta c c.tag_encoding)
          (read_tag-SafeFor c (int_meta c c.tag_encoding) (int_safe c c.tag_encoding)))
        from_tag-SafeDynamic

  pub versions_schema-Laws :
      (size_in_memory : ℕ) → Laws (versions_schema c s t size_in_memory) IsVersion version_bytes
  unfolding versions_schema
  versions_schema-Laws size_in_memory = record {
    writes = versions_write-Writes;
    sizes = versions_size_of-length;
    reads = versions_get-Reads;
    safe = versions_get-SafeDynamic;
    write_static = λ size z e. cc;
    read_static = λ size z e. cc;
    write_raw = λ size e. absurd cc;
    read_raw = λ size e. absurd cc;
  }

module _ (c : Configuration) where
  -- An address of either version with as many octets as the version has.
  abbrev pub IsIpAddr : List ℕ ⊎ List ℕ → Type 0
  IsIpAddr a = IsVersion c ipv4_schema ipv6_schema (octets_schema-Laws 4) (octets_schema-Laws 16) a

  abbrev pub ip_addr_bytes : List ℕ ⊎ List ℕ → List ℕ
  ip_addr_bytes a =
      version_bytes c ipv4_schema ipv6_schema (octets_schema-Laws 4) (octets_schema-Laws 16) a

  pub ip_addr_schema-Laws :
      (size_in_memory : ℕ) → Laws (ip_addr_schema c size_in_memory) IsIpAddr ip_addr_bytes
  ip_addr_schema-Laws =
      versions_schema-Laws c ipv4_schema ipv6_schema (octets_schema-Laws 4) (octets_schema-Laws 16)

  module _ (v4_size v6_size : ℕ) where
    abbrev pub IsSocketAddr : (List ℕ × ℕ) ⊎ SocketV6 → Type 0
    IsSocketAddr a =
        IsVersion c (socket_v4_schema c v4_size) (socket_v6_schema c v6_size)
          (socket_v4_schema-Laws c v4_size) (socket_v6_schema-Laws c v6_size) a

    abbrev pub socket_addr_bytes : (List ℕ × ℕ) ⊎ SocketV6 → List ℕ
    socket_addr_bytes a =
        version_bytes c (socket_v4_schema c v4_size) (socket_v6_schema c v6_size)
          (socket_v4_schema-Laws c v4_size) (socket_v6_schema-Laws c v6_size) a

    -- Under every configuration, `SocketAddr` keeps the schema laws on the addresses of either
    -- version that have its number of octets and whose port and other fields fit, within `usize`:
    -- the discriminant and then the address, its announced size, reading back, and memory safety on
    -- every input.
    pub socket_addr_schema-Laws :
        (size_in_memory : ℕ)
        → Laws (socket_addr_schema c v4_size v6_size size_in_memory) IsSocketAddr socket_addr_bytes
    socket_addr_schema-Laws =
        versions_schema-Laws c (socket_v4_schema c v4_size) (socket_v6_schema c v6_size)
          (socket_v4_schema-Laws c v4_size) (socket_v6_schema-Laws c v6_size)

    -- What the format keeps of an address.
    abbrev pub forget : (List ℕ × ℕ) ⊎ SocketV6 → (List ℕ × ℕ) ⊎ SocketV6
    forget (inl a) = inl a
    forget (inr a) = inr (record { ip = a.ip; port = a.port; flowinfo = 0; scope_id = 0 })

    -- Under every configuration, for every `SocketAddr` of either version that has its number of
    -- octets, whose port fits and whose encoding is within `usize`, with any flow and scope:
    -- writing puts in the discriminant, the octets and the port, the announced size is their
    -- length, and reading them gives the address back with a flow and a scope of zero, which the
    -- format does not keep; reading any input is memory safe.
    pub socket_addr_schema-forgets :
        (size_in_memory : ℕ) (a : (List ℕ × ℕ) ⊎ SocketV6)
        → IsSocketAddr (forget a)
        → Writes
            ((socket_addr_schema c v4_size v6_size size_in_memory).write a)
            (socket_addr_bytes a)
          × ((socket_addr_schema c v4_size v6_size size_in_memory).size_of a
              ≡ ok (length (socket_addr_bytes a)))
          × Reads
              (socket_addr_schema c v4_size v6_size size_in_memory).get
              (socket_addr_bytes a)
              (forget a)
          × SafeDynamic (socket_addr_schema c v4_size v6_size size_in_memory).get
    unfolding versions_schema versions_write versions_size_of socket_v6_schema
    socket_addr_schema-forgets size_in_memory (inl a) h =
        let laws = socket_addr_schema-Laws size_in_memory in
        (laws.writes (inl a) h, laws.sizes (inl a) h, laws.reads (inl a) h, laws.safe)
    socket_addr_schema-forgets size_in_memory (inr a) h =
        let laws = socket_addr_schema-Laws size_in_memory in
        (
          laws.writes (forget (inr a)) h,
          laws.sizes (forget (inr a)) h,
          laws.reads (forget (inr a)) h,
          laws.safe,
        )
