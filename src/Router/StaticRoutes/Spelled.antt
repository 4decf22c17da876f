-- ===== src/Router/StaticRoutes/Spelled.antt =====
-- Which paths are prerendered.
use halyard.Prelude.{
  ◌≡◌, ◌↔◌, ◌⊎◌, inl, inr, refl, sym, ap, ◌∙◌, subst, ◌||◌, Bool-cases, Option, none, some, List,
  [], ◌∷◌, ◌++◌, map, arith, if◌then◌else◌,
}
use mathlib.Core.List.{append_assoc, append-nil}
use halyard.Prelude.Bytes.{Bytes, is_empty, starts_with_byte}
use halyard.Router.Segments.{PathSegment, unit, static, param, optional_param, splat}
use halyard.Router.StaticRoutes.{
  StaticParamsMap, get, add_static, add_value, fill, param_paths, values, with_and_without,
  add_segment, unwrap_or_default, add_segments, into_paths,
}

abbrev pub In : {A : Type 0} → A → List A → Type 0
In x [] = ⊥
In x (y ∷ ys) = (x ≡ y) ⊎ In x ys

pub In-append : {A : Type 0} (x : A) (xs ys : List A) → In x (xs ++ ys) ↔ (In x xs ⊎ In x ys)
In-append x [] ys = ground arith
In-append x (y ∷ xs) ys = ground (arith, In-append x xs ys)

pub In-map :
    {A B : Type 0} (f : A → B) (y : B) (xs : List A)
    → In y (map f xs) ↔ ((x : A) × In x xs × (y ≡ f x))
In-map f y [] = (λ h. absurd h, λ h. absurd h.1)
In-map f y (x ∷ xs) =
    let ih = In-map f y xs in
    (
      λ h. elim h [
        | inl e ↦ (x, inl refl, e)
        | inr rest ↦ let (a, at, e) = ih.0 rest in (a, inr at, e)
      ],
      λ h. elim h.1 [ inl e ↦ inl (h.2 ∙ ap f e) | inr at ↦ inr (ih.1 (h.0, at, h.2)) ],
    )

-- The text of a value, and of a static name.
abbrev pub value_text : Bytes → Bytes
value_text val = if starts_with_byte b'/' val then val else b'/' ∷ val

abbrev pub static_text : Bytes → Bytes
static_text s = if starts_with_byte b'/' s || is_empty s then s else b'/' ∷ s

-- A text that a segment stands for.
abbrev pub Stands : Option StaticParamsMap → PathSegment → Bytes → Type 0
Stands params unit text = text ≡ []
Stands params (static s) text = text ≡ static_text s
Stands params (param name) text =
    (val : Bytes) × In val (values params name) × (text ≡ value_text val)
Stands params (splat name) text =
    (val : Bytes) × In val (values params name) × (text ≡ value_text val)
Stands params (optional_param name) text =
    (text ≡ []) ⊎ ((val : Bytes) × In val (values params name) × (text ≡ value_text val))

-- The texts of a route's segments, one after the other.
abbrev pub Spells : Option StaticParamsMap → List PathSegment → Bytes → Type 0
Spells params [] path = path ≡ []
Spells params (segment ∷ segments) path =
    (text rest : Bytes) × Stands params segment text
    × Spells params segments rest
    × (path ≡ text ++ rest)

add_value-text : (path val : Bytes) → add_value path val ≡ path ++ value_text val
unfolding add_value
add_value-text path val = elim (Bool-cases (starts_with_byte b'/' val)) [
  | inl e ↦ rw e refl
  | inr e ↦ rw e refl
]

add_static-text : (s path : Bytes) → add_static s path ≡ path ++ static_text s
unfolding add_static
add_static-text s path = elim (Bool-cases (starts_with_byte b'/' s || is_empty s)) [
  | inl e ↦ rw e refl
  | inr e ↦ rw e refl
]

-- `path` goes on with one of the values.
abbrev Continues : List Bytes → Bytes → Bytes → Type 0
Continues vals path p = (val : Bytes) × In val vals × (p ≡ path ++ value_text val)

In-values :
    (vals : List Bytes) (path p : Bytes) → In p (map (add_value path) vals) ↔ Continues vals path p
In-values vals path p = (
  λ h.
      let (val, at, e) = (In-map (add_value path) p vals).0 h in
      (val, at, e ∙ add_value-text path val),
  λ (val, at, e). (In-map (add_value path) p vals).1 (val, at, e ∙ sym (add_value-text path val)),
)

In-with_and_without :
    (vals paths : List Bytes) (p : Bytes)
    → In p (with_and_without vals paths)
      ↔ ((a : Bytes) × In a paths × ((p ≡ a) ⊎ Continues vals a p))
unfolding with_and_without
In-with_and_without vals [] p = (λ h. absurd h, λ h. absurd h.1)
In-with_and_without vals (path ∷ paths) p =
    let ih = In-with_and_without vals paths p in
    let both = In-append p (map (add_value path) vals) (with_and_without vals paths) in
    let here = In-values vals path p in
    (
      λ h. elim h [
        | inl e ↦ (path, inl refl, inl e)
        | inr rest ↦ elim (both.0 rest) [
          | inl now ↦ (path, inl refl, inr (here.0 now))
          | inr later ↦ let (a, at, how) = ih.0 later in (a, inr at, how)
        ]
      ],
      λ (a, at, how). elim at [
        | inr later ↦ inr (both.1 (inr (ih.1 (a, later, how))))
        | inl same ↦ elim how [
          | inl e ↦ inl (e ∙ same)
          | inr more ↦ inr (both.1 (inl (here.1 (subst (λ q. Continues vals q p) same more))))
        ]
      ],
    )

In-fill :
    (found : Option (List Bytes)) (paths : List Bytes) (p : Bytes)
    → In p (fill found paths) ↔ ((a : Bytes) × In a paths × Continues (unwrap_or_default found) a p)
unfolding fill
In-fill found [] p = (λ h. absurd h, λ h. absurd h.1)
In-fill none (path ∷ paths) p =
    let ih = In-fill none paths p in
    (λ h. let (a, at, how) = ih.0 h in (a, inr at, how), λ (a, at, (val, absent, e)). absurd absent)
In-fill (some vals) (path ∷ paths) p =
    let ih = In-fill (some vals) paths p in
    let both = In-append p (map (add_value path) vals) (fill (some vals) paths) in
    let here = In-values vals path p in
    (
      λ h. elim (both.0 h) [
        | inl now ↦ (path, inl refl, here.0 now)
        | inr later ↦ let (a, at, how) = ih.0 later in (a, inr at, how)
      ],
      λ (a, at, how). elim at [
        | inr later ↦ both.1 (inr (ih.1 (a, later, how)))
        | inl same ↦ both.1 (inl (here.1 (subst (λ q. Continues vals q p) same how)))
      ],
    )

-- A path that goes on with a text of the segment.
abbrev Goes : Option StaticParamsMap → PathSegment → List Bytes → Bytes → Type 0
Goes params segment paths p =
    (a text : Bytes) × In a paths × Stands params segment text × (p ≡ a ++ text)

In-param_paths :
    (params : Option StaticParamsMap) (name : Bytes) (paths : List Bytes) (p : Bytes)
    → In p (param_paths params name paths) ↔ Goes params (param name) paths p
In-param_paths none name paths p =
    (λ h. absurd h, λ (a, text, at, (val, absent, is), e). absurd absent)
In-param_paths (some params) name paths p =
    let filled = In-fill (get name params) paths p in
    (
      λ h. let (a, at, (val, is, e)) = filled.0 h in (a, value_text val, at, (val, is, refl), e),
      λ (a, text, at, (val, is, spelled), e).
          filled.1 (a, at, (val, is, e ∙ ap (λ q. a ++ q) spelled)),
    )

In-add_segment :
    (params : Option StaticParamsMap) (segment : PathSegment) (paths : List Bytes) (p : Bytes)
    → In p (add_segment params segment paths) ↔ Goes params segment paths p
unfolding add_segment
In-add_segment params unit paths p = (
  λ h. (p, [], h, refl, sym (append-nil p)),
  λ (a, text, at, nothing, e).
      subst (λ q. In q paths) (sym (e ∙ ap (λ q. a ++ q) nothing ∙ append-nil a)) at,
)
In-add_segment params (static s) paths p =
    let mapped = In-map (add_static s) p paths in
    (
      λ h. let (a, at, e) = mapped.0 h in (a, static_text s, at, refl, e ∙ add_static-text s a),
      λ (a, text, at, is, e). mapped.1 (a, at, e ∙ ap (λ q. a ++ q) is ∙ sym (add_static-text s a)),
    )
In-add_segment params (param name) paths p = In-param_paths params name paths p
In-add_segment params (splat name) paths p = In-param_paths params name paths p
In-add_segment params (optional_param name) paths p =
    let split = In-with_and_without (values params name) paths p in
    (
      λ h.
          let (a, at, how) = split.0 h in
          elim how [
            | inl e ↦ (a, [], at, inl refl, e ∙ sym (append-nil a))
            | inr (val, is, e) ↦ (a, value_text val, at, inr (val, is, refl), e)
          ],
      λ (a, text, at, stands, e). elim stands [
        | inl nothing ↦ split.1 (a, at, inl (e ∙ ap (λ q. a ++ q) nothing ∙ append-nil a))
        | inr (val, is, spelled) ↦ split.1 (a, at, inr (val, is, e ∙ ap (λ q. a ++ q) spelled))
      ],
    )

In-add_segments :
    (params : Option StaticParamsMap) (segments : List PathSegment) (paths : List Bytes) (p : Bytes)
    → In p (add_segments params segments paths)
      ↔ ((a rest : Bytes) × In a paths × Spells params segments rest × (p ≡ a ++ rest))
unfolding add_segments
In-add_segments params [] paths p = (
  λ h. (p, [], h, refl, sym (append-nil p)),
  λ (a, rest, at, nothing, e).
      subst (λ q. In q paths) (sym (e ∙ ap (λ q. a ++ q) nothing ∙ append-nil a)) at,
)
In-add_segments params (segment ∷ segments) paths p =
    let later = In-add_segments params segments (add_segment params segment paths) p in
    (
      λ h.
          let (b, rest, at, spells, e) = later.0 h in
          let (a, text, here, stands, e') = (In-add_segment params segment paths b).0 at in
          (
            a,
            text ++ rest,
            here,
            (text, rest, stands, spells, refl),
            e ∙ ap (λ q. q ++ rest) e' ∙ append_assoc a text rest,
          ),
      λ (a, rest, at, (text, rest', stands, spells, e'), e). later.1 (
        a ++ text,
        rest',
        (In-add_segment params segment paths (a ++ text)).1 (a, text, at, stands, refl),
        spells,
        e ∙ ap (λ q. a ++ q) e' ∙ sym (append_assoc a text rest'),
      ),
    )

-- The paths to prerender are exactly those that the route's segments spell: the name of a static segment,
-- one of the values given for a parameter or a splat, and for an optional parameter one of its values or
-- nothing. A `/` is put before a name or a value that does not begin with one.
pub into_paths_iff :
    (params : Option StaticParamsMap) (segments : List PathSegment) (path : Bytes)
    → In path (into_paths params segments) ↔ Spells params segments path
unfolding into_paths
into_paths_iff params segments path =
    let whole = In-add_segments params segments ([] ∷ []) path in
    (
      λ h.
          let (a, rest, at, spells, e) = whole.0 h in
          elim at [
            | inl empty ↦
                subst (Spells params segments) (sym (e ∙ ap (λ q. q ++ rest) empty)) spells
            | inr lost ↦ absurd lost
          ],
      λ spells. whole.1 ([], path, inl refl, spells, refl),
    )
