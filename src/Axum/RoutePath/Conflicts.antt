-- ===== src/Axum/RoutePath/Conflicts.antt =====
-- Which two paths matchit refuses to hold in one router.
use halyard.Prelude.{
  ◌≡◌, ◌≢◌, ◌↔◌, ◌⊎◌, inl, inr, refl, ap, subst, true, List, [], ◌∷◌, ◌++◌, arith, ==_iff,
  Bool-cases,
}
use halyard.Prelude.Bytes.{=b_iff}
use halyard.Axum.RoutePath.{Token, literal, param, catch_all, is_wildcard, ◌=t◌, conflicts_with}

pub =t_iff : (a b : Token) → ((a =t b) ≡ true) ↔ (a ≡ b)
unfolding ◌=t◌
=t_iff (literal a) (literal b) = ground (arith, ==_iff a b)
=t_iff param param = (λ _. refl, λ _. refl)
=t_iff (catch_all a) (catch_all b) = ground (arith, =b_iff a b)
=t_iff (literal a) param = ground arith
=t_iff (literal a) (catch_all b) = ground arith
=t_iff param (literal b) = ground arith
=t_iff param (catch_all b) = ground arith
=t_iff (catch_all a) (literal b) = ground arith
=t_iff (catch_all a) param = ground arith

=t_refl : (a : Token) → (a =t a) ≡ true
=t_refl a = (=t_iff a a).1 refl

=t_comm : (a b : Token) → (a =t b) ≡ (b =t a)
=t_comm a b = ground (arith, =t_iff a b, =t_iff b a)

-- Both paths go on, after a common beginning, with different wildcards.
pub record Fork (ours theirs : List Token) : Type 0 where
  pub common : List Token
  pub a : Token
  pub b : Token
  pub ours_rest : List Token
  pub theirs_rest : List Token
  pub ours_eq : ours ≡ common ++ a ∷ ours_rest
  pub theirs_eq : theirs ≡ common ++ b ∷ theirs_rest
  pub differ : a ≢ b
  pub ours_wild : is_wildcard a ≡ true
  pub theirs_wild : is_wildcard b ≡ true

Fork-cons : (t : Token) {ours theirs : List Token} → Fork ours theirs → Fork (t ∷ ours) (t ∷ theirs)
Fork-cons t f = record {
  common = t ∷ f.common;
  a = f.a;
  b = f.b;
  ours_rest = f.ours_rest;
  theirs_rest = f.theirs_rest;
  ours_eq = ap (λ l. t ∷ l) f.ours_eq;
  theirs_eq = ap (λ l. t ∷ l) f.theirs_eq;
  differ = f.differ;
  ours_wild = f.ours_wild;
  theirs_wild = f.theirs_wild;
}

conflicts_with_sound :
    (ours theirs : List Token)
    → conflicts_with ours theirs ≡ true
    → (ours ≡ theirs) ⊎ Fork ours theirs
unfolding conflicts_with
conflicts_with_sound [] [] h = inl refl
conflicts_with_sound [] (b ∷ theirs) h = cc
conflicts_with_sound (a ∷ ours) [] h = cc
conflicts_with_sound (a ∷ ours) (b ∷ theirs) h = elim (Bool-cases (a =t b)) [
  | inl e ↦
      let same : a ≡ b = (=t_iff a b).0 e in
      elim (conflicts_with_sound ours theirs (ground arith)) [
        | inl equal ↦ inl (cc)
        | inr fork ↦ inr (subst (λ t. Fork (a ∷ ours) (t ∷ theirs)) same (Fork-cons a fork))
      ]
  | inr e ↦ inr (record {
    common = [];
    a = a;
    b = b;
    ours_rest = ours;
    theirs_rest = theirs;
    ours_eq = refl;
    theirs_eq = refl;
    differ = λ q. ground (arith, =t_iff a b);
    ours_wild = ground arith;
    theirs_wild = ground arith;
  })
]

pub conflicts_with_self : (ts : List Token) → conflicts_with ts ts ≡ true
unfolding conflicts_with
conflicts_with_self [] = refl
conflicts_with_self (t ∷ ts) = rw (=t_refl t) (conflicts_with_self ts)

conflicts_with_fork :
    (common : List Token) (a b : Token) (ours theirs : List Token)
    → a ≢ b
    → is_wildcard a ≡ true
    → is_wildcard b ≡ true
    → conflicts_with (common ++ a ∷ ours) (common ++ b ∷ theirs) ≡ true
unfolding conflicts_with
conflicts_with_fork [] a b ours theirs h p q = ground (arith, =t_iff a b)
conflicts_with_fork (t ∷ common) a b ours theirs h p q =
    rw (=t_refl t) (conflicts_with_fork common a b ours theirs h p q)

-- Two paths conflict exactly when they are the same up to the names of parameters, or go on after
-- a common beginning with two different wildcards; a literal beside a wildcard is no conflict.
pub conflicts_with_iff :
    (ours theirs : List Token)
    → (conflicts_with ours theirs ≡ true) ↔ ((ours ≡ theirs) ⊎ Fork ours theirs)
conflicts_with_iff ours theirs = (conflicts_with_sound ours theirs, back)
  where
    forked : Fork ours theirs → conflicts_with ours theirs ≡ true
    forked f =
        rw (f.ours_eq, f.theirs_eq)
          (conflicts_with_fork f.common f.a f.b f.ours_rest f.theirs_rest f.differ f.ours_wild
            f.theirs_wild)

    back : (ours ≡ theirs) ⊎ Fork ours theirs → conflicts_with ours theirs ≡ true
    back (inl e) = subst (λ t. conflicts_with ours t ≡ true) e (conflicts_with_self ours)
    back (inr f) = forked f

-- Conflict does not depend on which path was added first.
pub conflicts_with_comm :
    (ours theirs : List Token) → conflicts_with ours theirs ≡ conflicts_with theirs ours
unfolding conflicts_with
conflicts_with_comm [] [] = refl
conflicts_with_comm [] (b ∷ theirs) = refl
conflicts_with_comm (a ∷ ours) [] = refl
conflicts_with_comm (a ∷ ours) (b ∷ theirs) =
    ground (arith, =t_comm a b, conflicts_with_comm ours theirs)
