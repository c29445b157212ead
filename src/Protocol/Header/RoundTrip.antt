-- ===== src/Protocol/Header/RoundTrip.antt =====
-- MarshalBinary and ParseHeader are inverse to one another.
use mathlib.Core.List.{append-nil}
use native.Mathlib.Nat.{add-zero, add-sub_cancel_left}
use link_forge.Prelude.{
  ltb, le→ltb, length, take, drop, length-append, length-take, length-drop, take-take-drop,
  drop-drop, get_or-take-drop, All-take, All-drop, ok, ℕ, ◌+◌, ◌≤◌, ◌≡◌, sym, ap, ◌∙◌, false, ◌∷◌,
  ◌++◌, arith,
}
use link_forge.Protocol.Bytes.{
  Bytes, AreBytes, slice, byte_at, bytes_eq, bytes_eq→eq, put_uint, get_uint, get_uint-put_uint,
  put_uint-get_uint,
}
use link_forge.Protocol.Header.{wire_version, magic, Header, IsHeader, marshal_binary, parse_header}

-- A header with fields of their widths is read back from its packet, whatever follows it.
pub parse_header-marshal_binary :
    (h : Header) (rest : Bytes) → IsHeader h → parse_header (marshal_binary h ++ rest) ≡ ok h
unfolding parse_header marshal_binary put_uint slice byte_at bytes_eq
parse_header-marshal_binary h rest v = rw long λ i. ok (record {
  packet_type = h.packet_type;
  flags = get_uint-put_uint 2 h.flags v.flags_fit i;
  session_id = get_uint-put_uint 8 h.session_id v.session_id_fits i;
  path_id = get_uint-put_uint 4 h.path_id v.path_id_fits i;
  sequence = get_uint-put_uint 8 h.sequence v.sequence_fits i;
})
  where
    long : ltb (length (marshal_binary h ++ rest)) 28 ≡ false
    long = le→ltb _ 28 (omega (arith, length-append (marshal_binary h) rest))

-- The next `k` bytes of a packet are the word read from them; what is read behind them follows.
word_at :
    (k lo m : ℕ) (p : Bytes)
    → AreBytes p
    → lo + k ≤ length p
    → put_uint k (get_uint (slice lo (lo + k) p)) ++ take m (drop (lo + k) p)
      ≡ take (k + m) (drop lo p)
unfolding slice
word_at k lo m p b h =
    rw (add-sub_cancel_left, put_uint-get_uint k _ whole (All-take _ k _ (All-drop _ lo p b)))
      (rw (← drop-drop lo k p) (take-take-drop k m (drop lo p)))
  where
    whole : length (take k (drop lo p)) ≡ k
    whole = omega (arith, length-take k (drop lo p), length-drop lo p)

word_end :
    (k lo : ℕ) (p : Bytes)
    → AreBytes p
    → lo + k ≤ length p
    → put_uint k (get_uint (slice lo (lo + k) p)) ≡ take k (drop lo p)
word_end k lo p b h =
    sym (append-nil _) ∙ word_at k lo 0 p b h ∙ ap (λ n. take n (drop lo p)) (add-zero k)

-- The fields that a successful ParseHeader reads, and what it has checked.
parse_header_inv :
    (p : Bytes) {h : Header}
    → parse_header p ≡ ok h
    → (28 ≤ length p)
      × (slice 0 4 p ≡ magic)
      × (byte_at 4 p ≡ wire_version)
      × (h ≡ record {
        packet_type = byte_at 5 p;
        flags = get_uint (slice 6 8 p);
        session_id = get_uint (slice 8 16 p);
        path_id = get_uint (slice 16 20 p);
        sequence = get_uint (slice 20 28 p);
      })
unfolding parse_header
parse_header_inv p e = ground (arith, bytes_eq→eq (slice 0 4 p) magic)

-- What ParseHeader accepts is the 28 bytes that MarshalBinary writes for the header that it
-- returns, so the bytes that Open authenticates are those that Seal does.
pub marshal_binary-parse_header :
    (p : Bytes) {h : Header} → AreBytes p → parse_header p ≡ ok h → marshal_binary h ≡ slice 0 28 p
unfolding marshal_binary
marshal_binary-parse_header p b e =
    let (long, m, v, fields) = parse_header_inv p e in
    rw fields ((λ i. sym m i ++ (sym v i ∷ byte_at 5 p ∷ words)) ∙ tail long ∙ all long)
  where
    words : Bytes
    words =
        put_uint 2 (get_uint (slice 6 8 p))
        ++ (put_uint 8 (get_uint (slice 8 16 p))
            ++ (put_uint 4 (get_uint (slice 16 20 p)) ++ put_uint 8 (get_uint (slice 20 28 p))))

    tail :
        28 ≤ length p
        → slice 0 4 p ++ (byte_at 4 p ∷ byte_at 5 p ∷ words)
          ≡ slice 0 4 p ++ (byte_at 4 p ∷ byte_at 5 p ∷ take 22 (drop 6 p))
    tail long = rw (
      word_end 8 20 p b long,
      word_at 4 16 8 p b (omega arith),
      word_at 8 8 12 p b (omega arith),
      word_at 2 6 20 p b (omega arith),
    )

    all :
        28 ≤ length p
        → slice 0 4 p ++ (byte_at 4 p ∷ byte_at 5 p ∷ take 22 (drop 6 p)) ≡ slice 0 28 p
    all long =
        unfold slice byte_at in
        rw (get_or-take-drop 5 22 p 0 (omega arith), get_or-take-drop 4 23 p 0 (omega arith))
          (take-take-drop 4 24 p)
