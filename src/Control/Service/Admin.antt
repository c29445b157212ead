-- ===== src/Control/Service/Admin.antt =====
-- Which requests requireAdmin of internal/controlplane/service.go lets through.
use link_forge.Control.Bucket.{Bolt}
use link_forge.Control.Service.{Service, State, Answer, fail, Request, has_token, require_admin}
use link_forge.Prelude.{
  Bool-cases, length, drop, drop-append, ◌≡◌, refl, ap, ◌∙◌, ◌≢◌, inl, inr, true, ◌++◌, arith,
}
use link_forge.Prelude.Text.{codes, has_prefix, has_prefix-append, has_prefix_inv}
use link_forge.Protocol.Bytes.{Bytes, bytes_eq, bytes_eq→eq, bytes_eq_refl}

has_token-append : (front token : Bytes) → has_token front token (front ++ token) ≡ true
unfolding has_token
has_token-append front token =
    let begun = has_prefix-append front token in
    let rest : drop (length front) (front ++ token) ≡ token =
      drop-append (length front) front token refl in
    rw (begun, rest) (bytes_eq_refl token)

has_token_inv :
    (front token header : Bytes) → has_token front token header ≡ true → header ≡ front ++ token
unfolding has_token
has_token_inv front token header h = elim (Bool-cases (has_prefix header front)) [
  | inr other_start ↦ ground arith
  | inl begun ↦
      let same : bytes_eq (drop (length front) header) token ≡ true = ground arith in
      has_prefix_inv header front begun
      ∙ ap (λ x. front ++ x) (bytes_eq→eq (drop (length front) header) token same)
]

module _ {b : Bolt} {R : Type 0} (v : Service R) (next : Request → State b R → Answer × State b R)
    (q : Request) (x : State b R) where
  -- A request whose Authorization is the bearer token of the administrator is handed on; any other
  -- is answered with status 401 and changes nothing.
  pub require_admin-token :
      (q.authorization ≡ codes "Bearer " ++ v.admin_token → require_admin v next q x ≡ next q x)
      × (q.authorization ≢ codes "Bearer " ++ v.admin_token
          → require_admin v next q x ≡ (fail 401 "admin authorization required", x))
  unfolding require_admin
  require_admin-token =
      let front = codes "Bearer " in
      (
        (λ e.
            let given : has_token front v.admin_token q.authorization ≡ true =
              ap (has_token front v.admin_token) e ∙ has_token-append front v.admin_token in
            rw given refl),
        λ n. elim (Bool-cases (has_token front v.admin_token q.authorization)) [
          | inl given ↦ absurd (n (has_token_inv front v.admin_token q.authorization given))
          | inr missing ↦ rw missing refl
        ],
      )
