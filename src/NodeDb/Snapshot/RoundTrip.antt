-- ===== src/NodeDb/Snapshot/RoundTrip.antt =====
-- What one record of the snapshot gives back.
use meshtastenstein_rs.Base.{
  ℕ, zero, suc, ◌+◌, ◌%◌, ◌≡◌, ◌≢◌, ◌≤◌, ◌<◌, refl, ap, sym, subst, ◌∙◌, min, Bool, true, false,
  ◌||◌, not, Option, none, some, List, [], ◌∷◌, ◌++◌, ◌==◌, if◌then◌else◌, is_some, unwrap_or,
  map_some, length, take, drop, replicate, splice, slice, length-replicate, length-take,
  take_all-append, take-take, take-min, slice_prefix, drop-write_fields, IsLaid-append, All-left,
  All-right, All-take, All-drop, from_le, from_le-to_le, bit_and, any, All, Reads, IsLaid,
  write_fields, read_back, length-write_fields, length-splice, get_or-slice, arith,
}
use meshtastenstein_rs.Packet.{broadcast_addr}
use meshtastenstein_rs.NodeDb.{User, NodeEntry}
use meshtastenstein_rs.NodeDb.Snapshot.{
  snapshot_record_size, encode_str_field, pack_flags, key_fields, main_fields, record_fields,
  encode_record, text_or_empty, decode_user, decode_entry, decode_record,
}

-- the three flags are read back from their bits
pack_flags_reads :
    (a b c : Bool)
    → (not (bit_and (pack_flags a b c) 1 == 0) ≡ a)
      × (not (bit_and (pack_flags a b c) 2 == 0) ≡ b)
      × (not (bit_and (pack_flags a b c) 4 == 0) ≡ c)
unfolding pack_flags
pack_flags_reads true true true = (refl, refl, refl)
pack_flags_reads true true false = (refl, refl, refl)
pack_flags_reads true false true = (refl, refl, refl)
pack_flags_reads true false false = (refl, refl, refl)
pack_flags_reads false true true = (refl, refl, refl)
pack_flags_reads false true false = (refl, refl, refl)
pack_flags_reads false false true = (refl, refl, refl)
pack_flags_reads false false false = (refl, refl, refl)

-- what is left of a user: texts cut at the widths of the record, and empty when cut within a
-- character
unfoldable pub persisted_user : (List ℕ → Bool) → User → User
persisted_user is_utf8 u = record {
  id = [];
  long_name = text_or_empty is_utf8 (take 28 u.long_name);
  short_name = text_or_empty is_utf8 (take 5 u.short_name);
  hw_model = u.hw_model % 256;
  role = u.role % 256;
  public_key = [];
}

-- an all-zero key is no key
unfoldable pub persisted_key : Option (List ℕ) → Option (List ℕ)
persisted_key none = none
persisted_key (some key) = if any (λ b. not (b == 0)) key then some key else none

All-zero : (n : ℕ) → All {A = ℕ} (λ b. b ≡ 0) (replicate n 0)
unfolding replicate
All-zero zero = tt
All-zero (suc n) = (refl, All-zero n)

any-All_zero : (xs : List ℕ) → All {A = ℕ} (λ b. b ≡ 0) xs → any (λ b. not (b == 0)) xs ≡ false
unfolding any
any-All_zero [] h = refl
any-All_zero (x ∷ xs) h = ground (arith, h.0, any-All_zero xs h.1)

unfoldable pub IsKey : Option (List ℕ) → Type 0
IsKey none = Unit
IsKey (some key) = length key ≡ 32

take-encode_str_field :
    (src : Option (List ℕ)) (n : ℕ) → n ≤ 28 → length (take n (encode_str_field src n).0) ≡ n
unfolding encode_str_field
take-encode_str_field src n h =
    let used : List ℕ = take (min (length (unwrap_or src [])) n) (unwrap_or src []) in
    omega (
      arith,
      h,
      length-take n (splice 0 used (replicate 28 0)),
      length-splice 0 used (replicate 28 0) (
          omega (
            arith,
            h,
            length-replicate {A = ℕ} 28 0,
            length-take (min (length (unwrap_or src [])) n) (unwrap_or src []),
          )),
      length-replicate {A = ℕ} 28 0,
    )

-- a text is read back as far as its field is wide
encode_str_field_reads :
    (src : Option (List ℕ)) (n off : ℕ) (w : List ℕ)
    → n ≤ 28
    → slice off (off + length (take n (encode_str_field src n).0)) w
      ≡ take n (encode_str_field src n).0
    → slice off (off + min (encode_str_field src n).1 n) w ≡ take n (unwrap_or src [])
unfolding encode_str_field
encode_str_field_reads src n off w h r =
    let text : List ℕ = unwrap_or src [] in
    let k : ℕ = min (length text) n in
    let stored : List ℕ = splice 0 (take k text) (replicate 28 0) in
    let kept : min k n ≡ k = omega arith in
    let size : length (take n stored) ≡ n = take-encode_str_field src n h in
    ap (λ m. slice off (off + m) w) kept
    ∙ (slice_prefix off k (take n stored) w (omega (arith, size)) r
        ∙ (take-take k n stored (omega arith)
            ∙ (take_all-append (take k text) (drop (0 + length (take k text)) (replicate 28 0)) k
                  (omega (arith, length-take k text))
                ∙ take-min n text)))

module _ {P M : Type 0} where
  -- what is left of a node
  unfoldable pub persisted : (List ℕ → Bool) → NodeEntry P M → NodeEntry P M
  persisted is_utf8 n = record n {
    user = map_some {A = User} {B = User} (persisted_user is_utf8) n.user;
    position_info = none;
    device_metrics = none;
    pub_key = persisted_key n.pub_key;
  }

  -- a node whose numbers fit their fields and whose own number is none of the reserved ones
  unfoldable pub IsStorable : NodeEntry P M → Type 0
  IsStorable n =
      (n.node_num ≢ 0)
      × (n.node_num ≢ broadcast_addr)
      × (n.node_num < 4294967296)
      × (n.last_heard < 4294967296)
      × (n.last_seen_ms < 18446744073709551616)
      × IsKey n.pub_key

  main_fields-IsLaid : (n : NodeEntry P M) → IsLaid 0 64 (main_fields n)
  unfolding main_fields
  main_fields-IsLaid n = ground (
    arith,
    take-encode_str_field (map_some {A = User} {B = List ℕ} (λ u. u.short_name) n.user) 5
        (omega arith),
    take-encode_str_field (map_some {A = User} {B = List ℕ} (λ u. u.long_name) n.user) 28
        (omega arith),
  )

key_fields-IsLaid :
    (key : Option (List ℕ)) → IsKey key → IsLaid 64 snapshot_record_size (key_fields key)
unfolding IsKey key_fields
key_fields-IsLaid none h = omega arith
key_fields-IsLaid (some key) h = (omega arith, omega (arith, h))

-- what `decode_entry` takes for the key
read_key : List ℕ → Option (List ℕ)
read_key w = if any (λ b. not (b == 0)) (slice 64 96 w) then some (slice 64 96 w) else none

read_key-write_fields :
    (key : Option (List ℕ)) (fs : List (ℕ × List ℕ))
    → IsKey key
    → IsLaid 0 64 fs
    → read_key (write_fields (fs ++ key_fields key) (replicate snapshot_record_size 0))
      ≡ persisted_key key
unfolding read_key persisted_key key_fields IsKey
read_key-write_fields none fs h l =
    let zeros : List ℕ = replicate snapshot_record_size 0 in
    let rest : drop 64 (write_fields (fs ++ []) zeros) ≡ drop 64 zeros =
      drop-write_fields 0 64 (fs ++ []) zeros (IsLaid-append 0 64 64 fs [] l (omega arith))
        (omega (arith, length-replicate {A = ℕ} snapshot_record_size 0)) in
    let none_set : any (λ b. not (b == 0)) (take 32 (drop 64 zeros)) ≡ false =
      any-All_zero (take 32 (drop 64 zeros))
        (All-take _ 32 (drop 64 zeros) (All-drop _ 64 zeros (All-zero snapshot_record_size))) in
    rw (rest, none_set)
read_key-write_fields (some key) fs h l =
    let zeros : List ℕ = replicate snapshot_record_size 0 in
    let w : List ℕ = write_fields (fs ++ ((64, key) ∷ [])) zeros in
    let reads = All-right _ fs ((64, key) ∷ []) (
      read_back 0 (fs ++ ((64, key) ∷ [])) zeros (
        subst (λ n. IsLaid 0 n (fs ++ ((64, key) ∷ [])))
          (sym (length-replicate {A = ℕ} snapshot_record_size 0))
          (IsLaid-append 0 64 96 fs ((64, key) ∷ []) l (omega arith, omega (arith, h))))) in
    let got : slice 64 96 w ≡ key = ap (λ n. slice 64 (64 + n) w) (sym h) ∙ reads.0 in rw (got)

not_reserved : (n : ℕ) → n ≢ 0 → n ≢ broadcast_addr → (n == 0 || n == broadcast_addr) ≡ false
not_reserved n h k = ground arith

-- a value that is there, or not, with its bit
optional_back : (o : Option ℕ) → (if is_some o then some (unwrap_or o 0) else none) ≡ o
optional_back none = refl
optional_back (some a) = refl

-- the user that is decoded from what was encoded of it
user_back :
    (is_utf8 : List ℕ → Bool) (o : Option User) (sn ln : ℕ)
    → sn ≡ min (length (unwrap_or (map_some {A = User} {B = List ℕ} (λ u. u.short_name) o) [])) 5
    → ln ≡ min (length (unwrap_or (map_some {A = User} {B = List ℕ} (λ u. u.long_name) o) [])) 28
    → decode_user
        (is_some o)
        sn
        ln
        (text_or_empty is_utf8
          (take 5 (unwrap_or (map_some {A = User} {B = List ℕ} (λ u. u.short_name) o) [])))
        (text_or_empty is_utf8
          (take 28 (unwrap_or (map_some {A = User} {B = List ℕ} (λ u. u.long_name) o) [])))
        (unwrap_or (map_some {A = User} {B = ℕ} (λ u. u.hw_model % 256) o) 0)
        (unwrap_or (map_some {A = User} {B = ℕ} (λ u. u.role % 256) o) 0)
      ≡ map_some {A = User} {B = User} (persisted_user is_utf8) o
unfolding persisted_user decode_user
user_back is_utf8 none sn ln es el = ground (arith, es, el)
user_back is_utf8 (some u) sn ln es el = ground arith

module _ {P M : Type 0} (is_utf8 : List ℕ → Bool) where
  main_back :
      (n : NodeEntry P M) (w : List ℕ)
      → IsStorable n
      → Reads w (main_fields n)
      → read_key w ≡ persisted_key n.pub_key
      → decode_record is_utf8 w ≡ some (persisted is_utf8 n)
  unfolding decode_record decode_entry main_fields IsStorable persisted read_key encode_str_field
  main_back n w h
        (
          num,
          (
            heard,
            (seen, (snr, (hops, (next, (flags, (sl, (s, (ll, (l, (role, (hw, (pres, e)))))))))))),
          ),
        )
        key =
      let num_is : from_le (slice 0 4 w) ≡ n.node_num =
        ap from_le num ∙ from_le-to_le 4 n.node_num h.2 in
      let heard_is : from_le (slice 4 8 w) ≡ n.last_heard =
        ap from_le heard ∙ from_le-to_le 4 n.last_heard h.3 in
      let seen_is : from_le (slice 8 16 w) ≡ n.last_seen_ms =
        ap from_le seen ∙ from_le-to_le 8 n.last_seen_ms h.4 in
      let f = pack_flags_reads n.is_favorite n.is_ignored n.is_muted in
      let p = pack_flags_reads (is_some n.snr) (is_some n.hops_away) (is_some n.user) in
      let short : Option (List ℕ) = map_some {A = User} {B = List ℕ} (λ u. u.short_name) n.user in
      let long : Option (List ℕ) = map_some {A = User} {B = List ℕ} (λ u. u.long_name) n.user in
      let sn : ℕ = min (encode_str_field short 5).1 5 in
      let ln : ℕ = min (encode_str_field long 28).1 28 in
      let fields : decode_entry is_utf8 n.node_num w ≡ persisted is_utf8 n = rw (
        get_or-slice 16 w (unwrap_or n.snr 0) 0 snr,
        get_or-slice 17 w (unwrap_or n.hops_away 0) 0 hops,
        get_or-slice 18 w n.next_hop 0 next,
        get_or-slice 19 w _ 0 flags,
        get_or-slice 20 w _ 0 sl,
        get_or-slice 26 w _ 0 ll,
        get_or-slice 55 w _ 0 role,
        get_or-slice 56 w _ 0 hw,
        get_or-slice 57 w _ 0 pres,
        heard_is,
        seen_is,
        encode_str_field_reads short 5 21 w (omega arith) s,
        encode_str_field_reads long 28 27 w (omega arith) l,
        key,
        f.0,
        f.1,
        f.2,
        p.0,
        p.1,
        p.2,
        optional_back n.snr,
        optional_back n.hops_away,
        user_back is_utf8 n.user sn ln (omega arith) (omega arith),
      ) in
      rw (num_is, not_reserved n.node_num h.0 h.1) (ap some fields)

  -- A node that can be stored is read back as `persisted` says. Its number, times, signal, hops,
  -- next hop and flags are as they were; of its user the hardware model and the role are kept
  -- modulo 256, the names are cut at 28 and 5 bytes and empty if the cut is within a character, and
  -- the id and the key are dropped. The key of the node is kept unless it is all zeros. Its
  -- position and metrics are dropped.
  pub decode_record-encode_record :
      (n : NodeEntry P M)
      → IsStorable n
      → decode_record is_utf8 (encode_record n) ≡ some (persisted is_utf8 n)
  unfolding decode_record decode_entry encode_record record_fields IsStorable persisted
      encode_str_field
  decode_record-encode_record n h =
      let w : List ℕ = encode_record n in
      let zeros : List ℕ = replicate snapshot_record_size 0 in
      let reads : Reads w (record_fields n) = read_back 0 (record_fields n) zeros (
        subst (λ k. IsLaid 0 k (record_fields n))
          (sym (length-replicate {A = ℕ} snapshot_record_size 0))
          (IsLaid-append 0 64 96 (main_fields n) (key_fields n.pub_key) (main_fields-IsLaid n)
            (key_fields-IsLaid n.pub_key h.5))) in
      let front : Reads w (main_fields n) =
        All-left _ (main_fields n) (key_fields n.pub_key) reads in
      main_back n w h front
        (read_key-write_fields n.pub_key (main_fields n) h.5 (main_fields-IsLaid n))

module _ {P M : Type 0} where
  record-IsLaid :
      (n : NodeEntry P M)
      → IsStorable n
      → IsLaid 0 (length (replicate {A = ℕ} snapshot_record_size 0)) (record_fields n)
  unfolding record_fields IsStorable
  record-IsLaid n h =
      subst (λ k. IsLaid 0 k (record_fields n))
        (sym (length-replicate {A = ℕ} snapshot_record_size 0))
        (IsLaid-append 0 64 96 (main_fields n) (key_fields n.pub_key) (main_fields-IsLaid n)
          (key_fields-IsLaid n.pub_key h.5))

  pub length-encode_record :
      (n : NodeEntry P M) → IsStorable n → length (encode_record n) ≡ snapshot_record_size
  unfolding encode_record
  length-encode_record n h =
      length-write_fields 0 (record_fields n) (replicate snapshot_record_size 0) (record-IsLaid n h)
      ∙ length-replicate {A = ℕ} snapshot_record_size 0
