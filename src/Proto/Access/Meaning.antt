-- ===== src/Proto/Access/Meaning.antt =====
-- What the checks of an access key and of chains mean.
use quotacontrol.Prelude.{
  ℕ, ◌≡◌, ◌≢◌, ◌↔◌, ◌⊎◌, inl, inr, refl, Bool, true, false, not, none, List, [], ◌∷◌, nat_eq,
  nat_beq_iff, is_empty, filter, contains, contains_sound, contains_complete, Among, All, arith,
  Bool-cases,
}
use quotacontrol.Prelude.Text.{Text}
use quotacontrol.Proto.Types.{Service, AccessKey, ProjectInfo}
use quotacontrol.Proto.Access.{validate_origin, validate_service, validate_chains, service_listed}

service_listed-contains : (l : List Service) (s : Service) → service_listed l s ≡ contains l s
unfolding service_listed
service_listed-contains [] s = refl
service_listed-contains (x ∷ l) s =
    ground (arith, service_listed-contains l s, nat_beq_iff x s, nat_beq_iff s x)

is_empty_iff {ℓ} : {A : Type ℓ} (l : List A) → (is_empty l ≡ true) ↔ (l ≡ [])
is_empty_iff [] = (λ h. refl, λ h. refl)
is_empty_iff (x ∷ l) = (λ h. cc, λ h. cc)

-- A key allows exactly the services that it lists, or every service where it lists none.
pub validate_service_iff :
    (k : AccessKey) (s : Service)
    → (validate_service k s ≡ true) ↔ ((k.allowed_services ≡ []) ⊎ Among s k.allowed_services)
unfolding validate_service
validate_service_iff k s = (
  λ h. elim (Bool-cases (is_empty k.allowed_services)) [
    | inl t ↦ inl ((is_empty_iff k.allowed_services).0 t)
    | inr f ↦ inr (
        contains_sound k.allowed_services s
          (ground (arith, service_listed-contains k.allowed_services s)))
  ],
  elim [
    | inl e ↦ ground (arith, (is_empty_iff k.allowed_services).1 e)
    | inr a ↦ ground (
      arith,
      contains_complete k.allowed_services s a,
      service_listed-contains k.allowed_services s,
    )
  ],
)

none_left :
    (l ids : List ℕ)
    → is_empty (filter (λ id. not (contains l id)) ids) ≡ true
    → All (λ id. Among id l) ids
none_left l [] h = tt
none_left l (i ∷ ids) h = elim (Bool-cases (contains l i)) [
  | inl t ↦ (contains_sound l i t, none_left l ids (ground arith))
  | inr f ↦ ground arith
]

some_left :
    (l ids : List ℕ)
    → All (λ id. Among id l) ids
    → is_empty (filter (λ id. not (contains l id)) ids) ≡ true
some_left l [] h = refl
some_left l (i ∷ ids) h = ground (arith, contains_complete l i h.0, some_left l ids h.1)

-- The chains of a request are valid exactly if the project names each of them, or names none at
-- all.
pub validate_chains_iff :
    (i : ProjectInfo) (ids : List ℕ)
    → (validate_chains i ids ≡ none) ↔ ((i.chain_ids ≡ []) ⊎ All (λ id. Among id i.chain_ids) ids)
unfolding validate_chains
validate_chains_iff i ids = (
  λ h. elim (Bool-cases (is_empty i.chain_ids)) [
    | inl t ↦ inl ((is_empty_iff i.chain_ids).0 t)
    | inr f ↦ inr (none_left i.chain_ids ids (ground arith))
  ],
  elim [
    | inl e ↦ ground (arith, (is_empty_iff i.chain_ids).1 e)
    | inr a ↦ ground (arith, some_left i.chain_ids ids a)
  ],
)

-- A key allows a request exactly if it has no origin and the key requires none, or has one that
-- matches the allowed origins.
pub validate_origin_iff :
    (match_any : List Text → Text → Bool) (k : AccessKey) (origin : Text)
    → (validate_origin match_any k origin ≡ true) ↔ (
        ((origin ≡ []) × (k.require_origin ≡ false))
        ⊎ ((origin ≢ []) × (match_any k.allowed_origins origin ≡ true)))
unfolding validate_origin
validate_origin_iff match_any k [] = (
  λ h. inl (refl, ground arith),
  elim [ inl (e, f) ↦ ground arith | inr (n, f) ↦ absurd (n refl) ],
)
validate_origin_iff match_any k (b ∷ o) =
    (λ h. inr (λ e. cc, h), elim [ inl (e, f) ↦ cc | inr (n, f) ↦ f ])
