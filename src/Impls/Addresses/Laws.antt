-- ===== src/Impls/Addresses/Laws.antt =====
-- The laws of the network addresses of wincode/src/schema/impls.rs as schemas.
use wincode.Prelude.{
  ℕ, ◌+◌, ◌≤◌, ◌<◌, ◌^◌, ◌≡◌, refl, sym, ap, ap₂, ◌∙◌, Bool, true, false, List, [], ◌∷◌, ◌++◌,
  length, length-append, ok, wrapping_add, wrapping_add-fits, ◌%◌, ltb→lt, arith,
}
use wincode.Reader.{Read, pure, ◌>>=◌}
use wincode.Reader.Reads.{Reads-bind, Reads-map, Reads-value, Reads-copy_length}
use wincode.Reader.Safe.{
  SafeStatic, SafeStatic-bind, SafeStatic-pure, SafeStatic-cast, SafeStatic-copy,
  SafeStatic-dynamic, SafeDynamic-bind, SafeDynamic-pure,
}
use wincode.Writer.Writes.{Writes-write, Writes-seq}
use wincode.IntEncoding.{u16}
use wincode.IntEncoding.Format.{size_of-length, size_of-small}
use wincode.TypeMeta.{TypeMeta, static, dynamic, join_types, join_loop}
use wincode.Config.{Configuration, wide}
use wincode.Ints.{int_meta}
use wincode.Ints.Laws.{bytes_of, int_write-Writes, int_size_of-length, int_read-Reads}
use wincode.Schema.Laws.{Laws, SafeFor}
use wincode.Impls.Scalars.Laws.{int_length, int_safe}
use wincode.Impls.Addresses.{
  octets_schema, SocketV6, port_size_of, socket_v4_schema, socket_v6_schema,
}

-- As many octets as the version has.
abbrev pub IsOctets : ℕ → List ℕ → Type 0
IsOctets n octets = length octets ≡ n

abbrev pub octets_bytes : List ℕ → List ℕ
octets_bytes octets = octets

pub octets_schema-Laws : (n : ℕ) → Laws (octets_schema n) (IsOctets n) octets_bytes
unfolding octets_schema
octets_schema-Laws n = record {
  writes = λ a h. Writes-write a;
  sizes = λ a h. ap ok (sym h);
  reads = λ a h. Reads-copy_length n a h;
  safe = SafeStatic-copy n;
  write_static = λ size z e a h. let same : n ≡ size = cc in h ∙ same;
  read_static = λ size z e a h. let same : n ≡ size = cc in h ∙ same;
  write_raw = λ size e. absurd cc;
  read_raw = λ size e. absurd cc;
}

-- The join of the octets and of the port.
join-static :
    (n : ℕ) (t : TypeMeta) (size : ℕ) (z : Bool)
    → join_types (static n false ∷ t ∷ []) ≡ static size z
    → (k : ℕ) × (y : Bool) × (t ≡ static k y) × ((n + k) % 2 ^ 64 ≡ size) × (z ≡ false)
unfolding join_types join_loop wrapping_add
join-static n (static k y) size z e =
    let sum : ((0 + n) % 2 ^ 64 + k) % 2 ^ 64 ≡ size = cc in (k, y, refl, omega arith, cc)
join-static n dynamic size z e = absurd cc

never_raw :
    (n : ℕ) (t : TypeMeta) (size : ℕ) → join_types (static n false ∷ t ∷ []) ≡ static size true → ⊥
never_raw n t size e = let (k, y, p, q, r) = join-static n t size true e in cc

join-SafeFor {ℓ} :
    {A : Type ℓ} (get : Read ℕ) (n : ℕ) (t : TypeMeta) (f : List ℕ → ℕ → A)
    → SafeFor t get
    → n ≤ 16
    → ((k : ℕ) (y : Bool) → t ≡ static k y → k ≤ 17)
    → (m : Read (List ℕ)) → SafeStatic n m
    → SafeFor
        (join_types (static n false ∷ t ∷ []))
        (m >>= (λ ip. get >>= (λ port. pure (f ip port))))
unfolding join_types join_loop wrapping_add
join-SafeFor get n (static k y) f h small port_small m hm =
    let fits : k ≤ 17 = port_small k y refl in
    SafeStatic-cast {j = n + (k + 0)} (omega arith)
      (SafeStatic-bind hm (λ ip. SafeStatic-bind h (λ port. SafeStatic-pure (f ip port))))
join-SafeFor get n dynamic f h small port_small m hm =
    SafeDynamic-bind (SafeStatic-dynamic hm)
      (λ ip. SafeDynamic-bind h (λ port. SafeDynamic-pure (f ip port)))

module _ (c : Configuration) where
  -- The octets and then the port.
  abbrev pub socket_bytes : List ℕ → ℕ → List ℕ
  socket_bytes ip port = ip ++ bytes_of c (wide u16) port

  abbrev pub IsSocket : ℕ → List ℕ → ℕ → Type 0
  IsSocket n ip port = IsOctets n ip × (port < 256 ^ 2)

  socket_size :
      (n : ℕ) (ip : List ℕ) (port : ℕ)
      → n ≤ 16
      → IsSocket n ip port
      → port_size_of c n port ≡ ok (length (socket_bytes ip port))
  socket_size n ip port small (h, k) =
      let e : length (socket_bytes ip port) ≡ length ip + length (bytes_of c (wide u16) port) =
        length-append ip (bytes_of c (wide u16) port) in
      rw (int_size_of-length c (wide u16) port k) (
        ap ok (
          wrapping_add-fits n _ (
            omega (
              arith,
              size_of-length c.int_encoding c.byte_order u16 port k,
              size_of-small c.int_encoding u16 port,
            ))
          ∙ omega arith))

  port_small : (k : ℕ) (y : Bool) → int_meta c (wide u16) ≡ static k y → k ≤ 17
  port_small k y e = omega (
    arith,
    int_length c (wide u16) k y e 0,
    size_of-length c.int_encoding c.byte_order u16 0 (ltb→lt _ _ refl),
    size_of-small c.int_encoding u16 0,
  )

  socket_length :
      (n : ℕ) (size : ℕ) (z : Bool)
      → n ≤ 16
      → join_types (static n false ∷ int_meta c (wide u16) ∷ []) ≡ static size z
      → (ip : List ℕ) (port : ℕ) → IsSocket n ip port
      → length (socket_bytes ip port) ≡ size
  socket_length n size z small e ip port (h, k) =
      let (j, y, p, sum, flag) = join-static n (int_meta c (wide u16)) size z e in
      let fits : j ≤ 17 = port_small j y p in
      omega
        (arith, length-append ip (bytes_of c (wide u16) port), int_length c (wide u16) j y p port)

  abbrev pub IsSocketV4 : List ℕ × ℕ → Type 0
  IsSocketV4 a = IsSocket 4 a.0 a.1

  abbrev pub socket_v4_bytes : List ℕ × ℕ → List ℕ
  socket_v4_bytes a = socket_bytes a.0 a.1

  -- What the format keeps of an address of version 6.
  abbrev pub IsSocketV6 : SocketV6 → Type 0
  IsSocketV6 a = IsSocket 16 a.ip a.port × (a.flowinfo ≡ 0) × (a.scope_id ≡ 0)

  abbrev pub socket_v6_bytes : SocketV6 → List ℕ
  socket_v6_bytes a = socket_bytes a.ip a.port

  pub socket_v4_schema-Laws :
      (size_in_memory : ℕ) → Laws (socket_v4_schema c size_in_memory) IsSocketV4 socket_v4_bytes
  unfolding socket_v4_schema octets_schema
  socket_v4_schema-Laws size_in_memory = record {
    writes = λ a h. Writes-seq (Writes-write a.0) (int_write-Writes c (wide u16) a.1 h.1);
    sizes = λ a h. socket_size 4 a.0 a.1 (omega arith) h;
    reads = λ a h.
        Reads-bind _ (Reads-copy_length 4 a.0 h.0)
          (Reads-map (λ p. (a.0, p)) (int_read-Reads c (wide u16) a.1 h.1));
    safe =
        join-SafeFor _ 4 (int_meta c (wide u16)) (λ ip port. (ip, port)) (int_safe c (wide u16))
          (omega arith) port_small _ (SafeStatic-copy 4);
    write_static = λ size z e a h. socket_length 4 size z (omega arith) e a.0 a.1 h;
    read_static = λ size z e a h. socket_length 4 size z (omega arith) e a.0 a.1 h;
    write_raw = λ size e. absurd (never_raw 4 (int_meta c (wide u16)) size e);
    read_raw = λ size e. absurd (never_raw 4 (int_meta c (wide u16)) size e);
  }

  zeroed :
      (a : SocketV6)
      → a.flowinfo ≡ 0
      → a.scope_id ≡ 0
      → record { ip = a.ip; port = a.port; flowinfo = 0; scope_id = 0 } ≡ a
  zeroed a e k =
      ap₂ (λ x y. record { ip = a.ip; port = a.port; flowinfo = x; scope_id = y }) (sym e) (sym k)

  pub socket_v6_schema-Laws :
      (size_in_memory : ℕ) → Laws (socket_v6_schema c size_in_memory) IsSocketV6 socket_v6_bytes
  unfolding socket_v6_schema octets_schema
  socket_v6_schema-Laws size_in_memory = record {
    writes = λ a h.
        let ((l, p), e, k) = h in
        Writes-seq (Writes-write a.ip) (int_write-Writes c (wide u16) a.port p);
    sizes = λ a h. let ((l, p), e, k) = h in socket_size 16 a.ip a.port (omega arith) (l, p);
    reads = λ a h.
        let ((l, p), e, k) = h in
        Reads-value (zeroed a e k) (
          Reads-bind _ (Reads-copy_length 16 a.ip l) (
            Reads-map (λ x. record { ip = a.ip; port = x; flowinfo = 0; scope_id = 0 })
              (int_read-Reads c (wide u16) a.port p)));
    safe =
        join-SafeFor _ 16 (int_meta c (wide u16))
          (λ ip port. record { ip = ip; port = port; flowinfo = 0; scope_id = 0 })
          (int_safe c (wide u16)) (omega arith) port_small _ (SafeStatic-copy 16);
    write_static = λ size z e a h.
        let ((l, p), _, k) = h in socket_length 16 size z (omega arith) e a.ip a.port (l, p);
    read_static = λ size z e a h.
        let ((l, p), _, k) = h in socket_length 16 size z (omega arith) e a.ip a.port (l, p);
    write_raw = λ size e. absurd (never_raw 16 (int_meta c (wide u16)) size e);
    read_raw = λ size e. absurd (never_raw 16 (int_meta c (wide u16)) size e);
  }
