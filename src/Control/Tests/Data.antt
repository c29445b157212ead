-- ===== src/Control/Tests/Data.antt =====
-- The buckets and the draws that the runs of the store begin with.
use link_forge.Control.Pool.{size, IsPool}
use link_forge.Control.Store.{Activation, Tables}
use link_forge.Control.Store.Commands.{IsDraw}
use link_forge.Control.Tests.ListBolt.{list_bolt}
use link_forge.Control.Tests.Plain.{plain_store}
use link_forge.Prelude.{length, replicate, ◌≡◌, sym, ap, none, some, [], ◌∷◌, arith}
use link_forge.Prelude.Int.{pos}
use link_forge.Prelude.Text.{codes}
use link_forge.Protocol.Bytes.{Bytes}

abbrev pub used_code : Bytes
used_code = codes "lf_0123456789abcdefg"

abbrev pub one_activation : Activation
one_activation = record {
  user_id = codes "ann";
  device_name = codes "phone";
  created_at = pos 0;
  expires_at = pos 1000;
  used_at = none;
  used_by = [];
}

-- One activation and no devices.
abbrev pub first_tables : Tables list_bolt
first_tables = record {
  schema = some (codes "1");
  activations = (used_code, one_activation) ∷ [];
  devices = [];
  audit = [];
}

pub plain_store-IsPool : IsPool plain_store.pool
unfolding size
plain_store-IsPool = record { wide = omega arith; narrow = omega arith; fits = omega arith }

abbrev pub drawn_key : Bytes
drawn_key = replicate 32 7

abbrev pub drawn_nonce : Bytes
drawn_nonce = replicate 12 3

pub IsDraw-example : IsDraw (some drawn_key) (some drawn_nonce)
IsDraw-example = ((λ k e. ap length (sym (some_inv e))), λ n e. ap length (sym (some_inv e)))
  where
    some_inv : {x y : Bytes} → some x ≡ some y → x ≡ y
    some_inv h = cc
