-- ===== src/CsiCommon/Endpoint.antt =====
-- Which endpoints are accepted, and how they are split.
use csi_driver_smb_hardend.Base.{
  ℕ, ◌≡◌, ◌≢◌, refl, ap, ◌∙◌, ◌⊎◌, inl, inr, true, false, ◌||◌, [], ◌∷◌, ◌++◌, Option, none, some,
  Str, codes, Lacks, arith, drop, ◌==◌, Bool-cases,
}
use csi_driver_smb_hardend.Errors.{ok}
use csi_driver_smb_hardend.Strings.{has_prefix, to_lower, lower_byte}
use csi_driver_smb_hardend.CsiCommon.{parse_endpoint, behind_scheme, endpoint_of}

to_lower-append : (s t : Str) → to_lower (s ++ t) ≡ to_lower s ++ to_lower t
unfolding to_lower
to_lower-append [] t = refl
to_lower-append (c ∷ s) t = ap (λ u. lower_byte c ∷ u) (to_lower-append s t)

has_prefix-drop : (s : Str) → has_prefix s (codes "://") ≡ true → s ≡ codes "://" ++ drop 3 s
unfolding has_prefix
has_prefix-drop (c ∷ d ∷ e ∷ s) h = ground arith
has_prefix-drop (c ∷ d ∷ []) h = ground arith
has_prefix-drop (c ∷ []) h = ground arith
has_prefix-drop [] h = cc

joined :
    (c : ℕ) (ep : Str) (rest : Option (Str × Str)) (scheme addr : Str)
    → ((scheme addr : Str) → rest ≡ some (scheme, addr) → ep ≡ scheme ++ (codes "://" ++ addr))
    → ◌≡◌ {A = Option (Str × Str)}
        (elim rest [ none ↦ none | some p ↦ some (c ∷ p.0, p.1) ])
        (some (scheme, addr))
    → c ∷ ep ≡ scheme ++ (codes "://" ++ addr)
joined c ep none scheme addr found h = cc h
joined c ep (some (s, a)) scheme addr found h = ap (λ t. c ∷ t) (found s a refl) ∙ cc h

-- The two parts that are found make up the text.
behind_scheme-join :
    (ep scheme addr : Str)
    → behind_scheme ep ≡ some (scheme, addr)
    → ep ≡ scheme ++ (codes "://" ++ addr)
unfolding behind_scheme
behind_scheme-join [] scheme addr h = cc
behind_scheme-join (c ∷ ep) scheme addr h = elim (Bool-cases (has_prefix (c ∷ ep) (codes "://"))) [
  | inl e ↦ has_prefix-drop (c ∷ ep) e ∙ cc (rw e at h)
  | inr e ↦ joined c ep (behind_scheme ep) scheme addr (behind_scheme-join ep) (rw e at h)
]

-- A scheme without a colon is found.
behind_scheme-append :
    (scheme addr : Str)
    → Lacks b':' scheme
    → behind_scheme (scheme ++ (codes "://" ++ addr)) ≡ some (scheme, addr)
unfolding behind_scheme has_prefix
behind_scheme-append [] addr l = refl
behind_scheme-append (c ∷ scheme) addr l =
    let other : (c == b':') ≡ false = ground (arith, l.0) in
    rw (other, behind_scheme-append scheme addr l.1) refl

-- A Unix or TCP scheme, in any case, and an address that is not empty.
abbrev pub IsEndpoint : Str → Str → Type 0
IsEndpoint scheme addr =
    ((to_lower scheme ≡ codes "unix") ⊎ (to_lower scheme ≡ codes "tcp")) × (addr ≢ [])

endpoint_of-ok :
    (found : Option (Str × Str)) (scheme addr : Str)
    → endpoint_of found ≡ ok (scheme, addr)
    → (found ≡ some (scheme, addr)) × (addr ≢ [])
unfolding endpoint_of
endpoint_of-ok none scheme addr h = cc h
endpoint_of-ok (some (s, [])) scheme addr h = cc h
endpoint_of-ok (some (s, c ∷ a)) scheme addr h = (cc h, λ e. cc (h, e))

endpoint_of-some :
    (scheme addr : Str) → addr ≢ [] → endpoint_of (some (scheme, addr)) ≡ ok (scheme, addr)
unfolding endpoint_of
endpoint_of-some scheme [] h = absurd (h refl)
endpoint_of-some scheme (c ∷ addr) h = refl

lower_byte-colon : (c : ℕ) → lower_byte c ≢ b':' → c ≢ b':'
unfolding lower_byte
lower_byte-colon c h = ground arith

Lacks-of_to_lower : (s : Str) → Lacks b':' (to_lower s) → Lacks b':' s
unfolding to_lower
Lacks-of_to_lower [] h = tt
Lacks-of_to_lower (c ∷ s) h = (lower_byte-colon c h.0, Lacks-of_to_lower s h.1)

scheme-Lacks : (scheme addr : Str) → IsEndpoint scheme addr → Lacks b':' scheme
scheme-Lacks scheme addr (inl e, ne) = Lacks-of_to_lower scheme (rw e (omega arith))
scheme-Lacks scheme addr (inr e, ne) = Lacks-of_to_lower scheme (rw e (omega arith))

scheme-accepted :
    (scheme addr : Str)
    → IsEndpoint scheme addr
    → let ep = scheme ++ (codes "://" ++ addr) in
      (has_prefix (to_lower ep) (codes "unix://") || has_prefix (to_lower ep) (codes "tcp://"))
      ≡ true
scheme-accepted scheme addr (inl e, ne) =
    rw (to_lower-append scheme (codes "://" ++ addr), e) (unfold has_prefix to_lower in refl)
scheme-accepted scheme addr (inr e, ne) =
    rw (to_lower-append scheme (codes "://" ++ addr), e) (unfold has_prefix to_lower in refl)

-- Every address that is not empty, behind the scheme "unix" or "tcp" in any case and "://", is
-- returned by ParseEndpoint, with the scheme as it is written.
pub parse_endpoint-append :
    (scheme addr : Str)
    → IsEndpoint scheme addr
    → parse_endpoint (scheme ++ (codes "://" ++ addr)) ≡ ok (scheme, addr)
unfolding parse_endpoint
parse_endpoint-append scheme addr h =
    rw
      (scheme-accepted scheme addr h, behind_scheme-append scheme addr (scheme-Lacks scheme addr h))
      (endpoint_of-some scheme addr h.1)

-- The scheme and the address that ParseEndpoint returns make up the endpoint, with "://" between them,
-- and the address is not empty.
pub parse_endpoint-ok :
    (ep scheme addr : Str)
    → parse_endpoint ep ≡ ok (scheme, addr)
    → (ep ≡ scheme ++ (codes "://" ++ addr)) × (addr ≢ [])
unfolding parse_endpoint
parse_endpoint-ok ep scheme addr h =
    elim (Bool-cases
      (has_prefix (to_lower ep) (codes "unix://") || has_prefix (to_lower ep) (codes "tcp://"))) [
        | inl e ↦
            let (found, ne) = endpoint_of-ok (behind_scheme ep) scheme addr (rw e at h) in
            (behind_scheme-join ep scheme addr found, ne)
        | inr e ↦ cc (rw e at h)
      ]
