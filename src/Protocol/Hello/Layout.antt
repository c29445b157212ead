-- ===== src/Protocol/Hello/Layout.antt =====
-- What ParseHello reads where Marshal wrote a hello.
use native.Mathlib.Nat.{add-sub_cancel_left}
use link_forge.Prelude.{
  lt→ltb, length, take, drop, length-append, drop-append, take_all, ℕ, ◌+◌, ◌-◌, ◌*◌, ◌/◌, ◌%◌, ◌^◌,
  ◌≤◌, ◌<◌, ◌≡◌, sym, ap, ◌∙◌, true, [], ◌∷◌, ◌++◌, arith,
}
use link_forge.Prelude.Int.{pos}
use link_forge.Protocol.Bytes.{
  Bytes, slice, slice_from, byte_at, eq→bytes_eq, slice-append, put_uint, get_uint,
  get_uint-put_uint, length-put_uint,
}
use link_forge.Protocol.Bytes.Slices.{slice_front, byte_at-append, byte_at_left, slice_left}
use link_forge.Protocol.Hello.{
  second, unix_word, unix_time, Hello, Hmac, sign, hello_fixed, hello_v2, is_signed,
}

-- The fields fit their widths.
pub record IsHello (h : Hello) : Type 0 where
  pub client_id_fits : length h.client_id ≡ 16
  pub instance_nonce_fits : length h.instance_nonce ≡ 16
  pub nonce_fits : length h.nonce ≡ 16
  pub weight_fits : h.weight < 256 ^ 2

module _ (h : Hello) (v : IsHello h) where
  length-hello_fixed : length (hello_fixed h) ≡ 59
  unfolding hello_fixed
  length-hello_fixed = simp length-append (
      omega (
        arith,
        v.client_id_fits,
        v.instance_nonce_fits,
        v.nonce_fits,
        length-put_uint 8 (unix_word h.time),
        length-put_uint 2 h.weight,
      ))

  client_id-fixed : slice 0 16 (hello_fixed h) ≡ h.client_id
  unfolding hello_fixed
  client_id-fixed = slice_front 16 _ _ v.client_id_fits

  instance_nonce-fixed : slice 16 32 (hello_fixed h) ≡ h.instance_nonce
  unfolding hello_fixed
  instance_nonce-fixed =
      slice-append 16 0 16 h.client_id _ v.client_id_fits ∙ slice_front 16 _ _ v.instance_nonce_fits

  -- What stands behind the two ids.
  behind_ids :
      (lo hi : ℕ)
      → slice (16 + (16 + lo)) (16 + (16 + hi)) (hello_fixed h)
        ≡ slice lo hi (
            h.nonce
            ++ (put_uint 8 (unix_word h.time)
                ++ (put_uint 2 h.weight ++ (length h.path_name % 256 ∷ []))))
  unfolding hello_fixed
  behind_ids lo hi =
      slice-append 16 (16 + lo) (16 + hi) h.client_id _ v.client_id_fits
      ∙ slice-append 16 lo hi h.instance_nonce _ v.instance_nonce_fits

  nonce-fixed : slice 32 48 (hello_fixed h) ≡ h.nonce
  nonce-fixed = behind_ids 0 16 ∙ slice_front 16 _ _ v.nonce_fits

  time-fixed : slice 48 56 (hello_fixed h) ≡ put_uint 8 (unix_word h.time)
  time-fixed =
      behind_ids 16 24
      ∙ slice-append 16 0 8 h.nonce _ v.nonce_fits
      ∙ slice_front 8 _ _ (length-put_uint 8 _)

  weight-fixed : slice 56 58 (hello_fixed h) ≡ put_uint 2 h.weight
  weight-fixed =
      behind_ids 24 26
      ∙ slice-append 16 8 10 h.nonce _ v.nonce_fits
      ∙ slice-append 8 0 2 _ _ (length-put_uint 8 (unix_word h.time))
      ∙ slice_front 2 _ _ (length-put_uint 2 _)

  name_length-fixed : byte_at 58 (hello_fixed h) ≡ length h.path_name % 256
  unfolding hello_fixed byte_at
  name_length-fixed =
      byte_at-append 16 42 h.client_id _ v.client_id_fits
      ∙ byte_at-append 16 26 h.instance_nonce _ v.instance_nonce_fits
      ∙ byte_at-append 16 10 h.nonce _ v.nonce_fits
      ∙ byte_at-append 8 2 _ _ (length-put_uint 8 (unix_word h.time))
      ∙ byte_at-append 2 0 _ _ (length-put_uint 2 h.weight)

-- What the wire carries of a hello: the seconds of its time; its version is 2.
abbrev pub transmitted : Hello → ℕ → Hello
transmitted h seconds = record h { time = pos (seconds * second); wire_version = 2 }

pub unix_time-unix_word :
    (n : ℕ) → n / second < 2 ^ 63 → unix_time (unix_word (pos n)) ≡ pos (n / second * second)
unfolding unix_time unix_word
unix_time-unix_word n h =
    let word : n / second % 2 ^ 64 ≡ n / second = omega arith in
    rw word (rw (lt→ltb (n / second) (2 ^ 63) h))

pub unix_time-put_uint :
    (n : ℕ)
    → n / second < 2 ^ 63
    → unix_time (get_uint (put_uint 8 (unix_word (pos n)))) ≡ pos (n / second * second)
unix_time-put_uint n early =
    ap unix_time (get_uint-put_uint 8 (unix_word (pos n)) small) ∙ unix_time-unix_word n early
  where
    small : unix_word (pos n) < 256 ^ 8
    small = unfold unix_word in omega arith

module _ (h : Hello) (v : IsHello h) (mac : Bytes) (mac_fits : length mac ≡ 32) where
  abbrev pub signed : Bytes
  signed = hello_fixed h ++ h.path_name

  abbrev pub packet : Bytes
  packet = signed ++ mac

  pub length-signed : length signed ≡ 59 + length h.path_name
  length-signed = omega (arith, length-append (hello_fixed h) h.path_name, length-hello_fixed h v)

  pub length-packet : length packet ≡ 91 + length h.path_name
  length-packet = omega (arith, length-append signed mac, length-signed)

  mac_at-packet : length packet - 32 ≡ 59 + length h.path_name
  mac_at-packet = omega (arith, length-packet)

  field : (lo m : ℕ) → lo + m ≤ 59 → slice lo (lo + m) packet ≡ slice lo (lo + m) (hello_fixed h)
  unfolding slice
  field lo m short =
      let fixed : lo + m ≤ length (hello_fixed h) = omega (arith, length-hello_fixed h v) in
      rw add-sub_cancel_left (
        slice_left lo m signed mac (omega (arith, length-append (hello_fixed h) h.path_name))
        ∙ slice_left lo m (hello_fixed h) h.path_name fixed)

  pub name_length-packet : byte_at 58 packet ≡ length h.path_name % 256
  name_length-packet =
      byte_at_left 58 signed mac (omega (arith, length-signed))
      ∙ byte_at_left 58 (hello_fixed h) h.path_name (omega (arith, length-hello_fixed h v))
      ∙ name_length-fixed h v

  path_name-packet : slice 59 (length packet - 32) packet ≡ h.path_name
  unfolding slice
  path_name-packet =
      rw (mac_at-packet, add-sub_cancel_left)
        (slice_left 59 (length h.path_name) signed mac (omega (arith, length-signed))
          ∙ ap (take (length h.path_name))
              (drop-append 59 (hello_fixed h) h.path_name (length-hello_fixed h v))
          ∙ take_all (length h.path_name) h.path_name (omega arith))

  pub hello_v2-packet :
      (n : ℕ) → h.time ≡ pos n → n / second < 2 ^ 63 → hello_v2 packet ≡ transmitted h (n / second)
  unfolding hello_v2
  hello_v2-packet n t early = λ i. record {
    client_id = (field 0 16 (omega arith) ∙ client_id-fixed h v) i;
    instance_nonce = (field 16 16 (omega arith) ∙ instance_nonce-fixed h v) i;
    nonce = (field 32 16 (omega arith) ∙ nonce-fixed h v) i;
    time = time_read i;
    path_name = path_name-packet i;
    weight = weight_read i;
    wire_version = 2;
  }
    where
      time_read : unix_time (get_uint (slice 48 56 packet)) ≡ pos (n / second * second)
      time_read = rw (field 48 8 (omega arith), time-fixed h v, t) (unix_time-put_uint n early)

      weight_read : get_uint (slice 56 58 packet) ≡ h.weight
      weight_read =
          rw (field 56 2 (omega arith), weight-fixed h v)
            (get_uint-put_uint 2 h.weight v.weight_fits)

  pub is_signed-packet :
      (hmac : Hmac) (key label : Bytes)
      → mac ≡ sign hmac key label signed
      → is_signed hmac key label packet ≡ true
  unfolding is_signed slice_from
  is_signed-packet hmac key label e =
      let front : slice 0 (length packet - 32) packet ≡ signed =
        rw mac_at-packet (slice_front _ signed mac length-signed) in
      let back : drop (length packet - 32) packet ≡ mac =
        rw mac_at-packet (drop-append _ signed mac length-signed) in
      eq→bytes_eq _ _ (ap (sign hmac key label) front ∙ sym e ∙ sym back)
