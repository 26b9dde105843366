-- ===== src/Schema/Compile/Accounted/Types.antt =====
-- The keywords with no schema below them, in the report.
use jawohl.Prelude.{
  ℕ, ◌+◌, ◌≤◌, ◌≡◌, inl, inr, true, false, Option, none, some, arith, Bytes, codes, Bool-cases,
  refl,
}
use jawohl.Pointer.{parse_usize}
use jawohl.Value.{Value, Values, nil, cons}
use jawohl.Schema.Pattern.{Dfa, Pattern}
use jawohl.Schema.Pattern as Patterns
use jawohl.Schema.Node.{TypeSet, no_type, union, is_empty, from_name, Node}
use jawohl.Schema.Report.{
  expected_type_names, expected_natural, expected_number, not_representable, unknown_type,
  unanchored, bad_regex,
}
use jawohl.Schema.Compile.State.{Compiler}
use jawohl.Schema.Compile.Leaves.{
  add_type, add_types, type_set, with_types, set_types, counted_u64, u64_at, counted_f64, f64_at,
  set_unique, with_pattern, set_pattern, set_enum, set_required, note_unanchored,
}
use jawohl.Validate.Numbers.{Floats}
use jawohl.Schema.Compile.Accounted.{
  Scale, More, note-More, count-More, is_known, has_known, of_name, unknown, of_types, of_read,
  of_natural, of_float, of_regex, of_pattern, of_bool, of_array,
}

named_IsNonempty : (name : Bytes) (t : TypeSet) → from_name name ≡ some t → is_empty t ≡ false
unfolding from_name is_empty
named_IsNonempty name t e = ground arith

union-is_empty : (a b : TypeSet) → is_empty b ≡ false → is_empty (union a b) ≡ false
unfolding union is_empty
union-is_empty a b h = ground arith

union-is_empty_left : (a b : TypeSet) → is_empty a ≡ false → is_empty (union a b) ≡ false
unfolding union is_empty
union-is_empty_left a b h = ground arith

module _ {F D S : Type 0} (floats : Floats F) (ops : Dfa D S) (s : Scale) where
  -- An unknown name is reported.
  add_type-More :
      (loc name : Bytes) (t : Option TypeSet) (r : TypeSet × Compiler F D)
      → More s (of_name floats ops s.one s.entry 0 loc name t) r.1 (add_type loc name t r).1
  add_type-More loc name none r =
      omega (arith, note-More s loc (codes "type") (unknown_type name) r.1)
  add_type-More loc name (some t) r = omega arith

  add_type-still :
      (loc name : Bytes) (t : Option TypeSet) (r : TypeSet × Compiler F D)
      → is_empty r.0 ≡ false
      → is_empty (add_type loc name t r).0 ≡ false
  add_type-still loc name none r h = h
  add_type-still loc name (some t) r h = union-is_empty_left r.0 t h

  add_type-known :
      (loc name : Bytes) (t : Option TypeSet) (r : TypeSet × Compiler F D)
      → from_name name ≡ t
      → is_known t ≡ true
      → is_empty (add_type loc name t r).0 ≡ false
  add_type-known loc name none r e h = cc
  add_type-known loc name (some t) r e h = union-is_empty r.0 t (named_IsNonempty name t e)

  add_types-More :
      (loc : Bytes) (vs : Values) (r : TypeSet × Compiler F D)
      → More s (unknown floats ops s.one s.entry loc vs) r.1 (add_types loc vs r).1
  unfolding add_types
  add_types-More loc nil r = omega arith
  add_types-More loc (cons (Value.string name) vs) r = omega (
    arith,
    add_types-More loc vs (add_type loc name (from_name name) r),
    add_type-More loc name (from_name name) r,
  )
  add_types-More loc (cons _ vs) r = add_types-More loc vs r

  add_types-still :
      (loc : Bytes) (vs : Values) (r : TypeSet × Compiler F D)
      → is_empty r.0 ≡ false
      → is_empty (add_types loc vs r).0 ≡ false
  unfolding add_types
  add_types-still loc nil r h = h
  add_types-still loc (cons (Value.string name) vs) r h =
      add_types-still loc vs (add_type loc name (from_name name) r)
        (add_type-still loc name (from_name name) r h)
  add_types-still loc (cons _ vs) r h = add_types-still loc vs r h

  add_types-known :
      (loc : Bytes) (vs : Values) (r : TypeSet × Compiler F D)
      → has_known vs ≡ true
      → is_empty (add_types loc vs r).0 ≡ false
  unfolding add_types
  add_types-known loc nil r h = cc
  add_types-known loc (cons (Value.string name) vs) r h =
      elim (Bool-cases (is_known (from_name name))) [
        | inl e ↦
            add_types-still loc vs (add_type loc name (from_name name) r)
              (add_type-known loc name (from_name name) r refl e)
        | inr e ↦
            add_types-known loc vs (add_type loc name (from_name name) r) (ground (arith, e, h))
      ]
  add_types-known loc (cons _ vs) r h = add_types-known loc vs r h

  with_types-More :
      (i k : ℕ) (c : Compiler F D) (n : Node F D) (r : TypeSet × Compiler F D)
      → i ≤ k + s.one
      → is_empty r.0 ≡ false
      → More s k c r.1
      → More s i c (with_types n r).1
  with_types-More i k c n r le e m = rw e (omega (arith, count-More s r.1))

  with_types-grows :
      (k : ℕ) (c : Compiler F D) (n : Node F D) (r : TypeSet × Compiler F D)
      → More s k c r.1
      → More s k c (with_types n r).1
  with_types-grows k c n r m = ground (arith, count-More s r.1)

  named-More :
      (loc name : Bytes) (t : Option TypeSet) (n : Node F D) (c : Compiler F D)
      → from_name name ≡ t
      → More s
          (of_name floats ops s.one s.entry s.one loc name t)
          c
          (with_types n (add_type loc name t (no_type, c))).1
  named-More loc name none n c e =
      with_types-grows _ c n (add_type loc name none (no_type, c))
        (omega (arith, note-More s loc (codes "type") (unknown_type name) c))
  named-More loc name (some t) n c e =
      with_types-More _ 0 c n (add_type loc name (some t) (no_type, c)) (omega arith)
        (union-is_empty no_type t (named_IsNonempty name t e)) (omega arith)

  pub set_types-More :
      (loc : Bytes) (v : Value) (n : Node F D) (c : Compiler F D)
      → More s (of_types floats ops s.one s.entry loc v) c (set_types loc v n c).1
  unfolding set_types type_set
  set_types-More loc (Value.string name) n c = named-More loc name (from_name name) n c refl
  set_types-More loc (Value.array vs) n c = elim (Bool-cases (has_known vs)) [
    | inl e ↦ rw e (
        with_types-More _ (unknown floats ops s.one s.entry loc vs) c n
          (add_types loc vs (no_type, c)) (omega arith) (add_types-known loc vs (no_type, c) e)
          (add_types-More loc vs (no_type, c)))
    | inr e ↦ rw e (
        with_types-grows (unknown floats ops s.one s.entry loc vs + 0) c n
          (add_types loc vs (no_type, c)) (omega (arith, add_types-More loc vs (no_type, c))))
  ]
  set_types-More loc _ n c =
      with_types-grows _ c n _ (omega (arith, note-More s loc (codes "type") expected_type_names c))

  counted_u64-More :
      (loc key : Bytes) (x : Option ℕ) (c : Compiler F D)
      → More s
          (of_read floats ops s.one s.entry loc key expected_natural x)
          c
          (counted_u64 loc key x c).1
  counted_u64-More loc key none c = omega (arith, note-More s loc key expected_natural c)
  counted_u64-More loc key (some x) c = omega (arith, count-More s c)

  pub u64_at-More :
      (v : Value) (loc key : Bytes) (c : Compiler F D)
      → More s (of_natural floats ops s.one s.entry loc key v) c (u64_at v loc key c).1
  unfolding u64_at
  u64_at-More (Value.number num) loc key c = counted_u64-More loc key (parse_usize num.text) c
  u64_at-More _ loc key c = omega (arith, note-More s loc key expected_number c)

  counted_f64-More :
      (loc key : Bytes) (x : Option F) (c : Compiler F D)
      → More s
          (of_read floats ops s.one s.entry loc key not_representable x)
          c
          (counted_f64 loc key x c).1
  counted_f64-More loc key none c = omega (arith, note-More s loc key not_representable c)
  counted_f64-More loc key (some x) c = omega (arith, count-More s c)

  pub f64_at-More :
      (v : Value) (loc key : Bytes) (c : Compiler F D)
      → More s (of_float floats ops s.one s.entry loc key v) c (f64_at floats v loc key c).1
  unfolding f64_at
  f64_at-More (Value.number num) loc key c = counted_f64-More loc key (floats.parse num.text) c
  f64_at-More _ loc key c = omega (arith, note-More s loc key expected_number c)

  pub set_unique-More :
      (v : Value) (n : Node F D) (c : Compiler F D)
      → More s (of_bool floats ops s.one s.entry v) c (set_unique v n c).1
  unfolding set_unique
  set_unique-More (Value.bool b) n c = omega (arith, count-More s c)
  set_unique-More _ n c = omega arith

  with_pattern-More :
      (loc : Bytes) (p : Option (Pattern D)) (n : Node F D) (c : Compiler F D)
      → More s (of_regex floats ops s.one s.entry loc p) c (with_pattern loc p n c).1
  with_pattern-More loc none n c = omega (arith, note-More s loc (codes "pattern") bad_regex c)
  with_pattern-More loc (some p) n c = ground (
    arith,
    note-More s loc (codes "pattern") unanchored c,
    count-More s (note_unanchored loc p c),
  )

  pub set_pattern-More :
      (loc : Bytes) (v : Value) (n : Node F D) (c : Compiler F D)
      → More s (of_pattern floats ops s.one s.entry loc v) c (set_pattern ops loc v n c).1
  unfolding set_pattern
  set_pattern-More loc (Value.string p) n c = with_pattern-More loc (Patterns.compile ops p) n c
  set_pattern-More loc _ n c = omega arith

  pub set_enum-More :
      (v : Value) (n : Node F D) (c : Compiler F D)
      → More s (of_array floats ops s.one s.entry v 0) c (set_enum v n c).1
  unfolding set_enum
  set_enum-More (Value.array vs) n c = omega (arith, count-More s c)
  set_enum-More _ n c = omega arith

  pub set_required-More :
      (v : Value) (n : Node F D) (c : Compiler F D)
      → More s (of_array floats ops s.one s.entry v 0) c (set_required v n c).1
  unfolding set_required
  set_required-More (Value.array vs) n c = omega (arith, count-More s c)
  set_required-More _ n c = omega arith
