-- ===== src/Executor/Keys/Equality.antt =====
-- == on scalars is symmetric and transitive.
use mini_postgres.Base.{
  ◌≡◌, refl, sym, ap, ℕ, ℤ, pos, negsuc, beq_ℤ, Bool, true, List, [], ◌∷◌, arith, subst, ◌⊎◌, inl,
  inr, Bool-cases, ◌||◌,
}
use mini_postgres.Values.{Floats, Scalar, text_equal}
use mini_postgres.Executor.Keys.{
  Key, null_key, int_key, float_key, text_key, key_of, same_key, key_equal, by_identity,
  tuple_equal, IsPartial,
}

-- What Python guarantees of == on numbers, a NaN included.
pub record IsExact {F : Type 0} (floats : Floats F) (equals_int : F → ℤ → Bool) : Type 0 where
  pub equal_sym : (x y : F) → floats.equal x y ≡ true → floats.equal y x ≡ true
  pub equal_trans :
      (x y z : F) → floats.equal x y ≡ true → floats.equal y z ≡ true → floats.equal x z ≡ true
  pub equal_int :
      (x y : F) (n : ℤ) → floats.equal x y ≡ true → equals_int x n ≡ true → equals_int y n ≡ true
  pub int_equal :
      (x y : F) (n : ℤ) → equals_int x n ≡ true → equals_int y n ≡ true → floats.equal x y ≡ true
  pub int_unique : (x : F) (n m : ℤ) → equals_int x n ≡ true → equals_int x m ≡ true → n ≡ m

pub beq_ℤ-eq : (n m : ℤ) → beq_ℤ n m ≡ true → n ≡ m
beq_ℤ-eq (pos a) (pos b) h = ap pos (ground arith)
beq_ℤ-eq (pos a) (negsuc b) h = ground arith
beq_ℤ-eq (negsuc a) (pos b) h = ground arith
beq_ℤ-eq (negsuc a) (negsuc b) h = ap negsuc (ground arith)

beq_ℤ_self : (n : ℤ) → beq_ℤ n n ≡ true
beq_ℤ_self (pos a) = ground arith
beq_ℤ_self (negsuc a) = ground arith

text_equal-eq : (s t : List ℕ) → text_equal s t ≡ true → s ≡ t
unfolding text_equal
text_equal-eq [] [] h = refl
text_equal-eq [] (y ∷ ys) h = cc
text_equal-eq (x ∷ xs) [] h = cc
text_equal-eq (x ∷ xs) (y ∷ ys) h =
    let e : x ≡ y = ground arith in let es = text_equal-eq xs ys (ground arith) in cc (e, es)

text_equal_self : (s : List ℕ) → text_equal s s ≡ true
unfolding text_equal
text_equal_self [] = refl
text_equal_self (x ∷ xs) = ground (arith, text_equal_self xs)

module _ {F : Type 0} (floats : Floats F) (equals_int : F → ℤ → Bool)
    (exact : IsExact floats equals_int) where
  open exact use {equal_sym, equal_trans, equal_int, int_equal, int_unique}

  same_key_sym :
      (j k : Key F) → same_key floats equals_int j k ≡ true → same_key floats equals_int k j ≡ true
  unfolding same_key
  same_key_sym null_key null_key h = refl
  same_key_sym (int_key n) (int_key m) h =
      subst (λ i. beq_ℤ i n ≡ true) (beq_ℤ-eq n m h) (beq_ℤ_self n)
  same_key_sym (int_key n) (float_key y) h = h
  same_key_sym (float_key x) (int_key m) h = h
  same_key_sym (float_key x) (float_key y) h = equal_sym x y h
  same_key_sym (text_key s) (text_key t) h =
      subst (λ i. text_equal i s ≡ true) (text_equal-eq s t h) (text_equal_self s)
  same_key_sym null_key (int_key m) h = cc
  same_key_sym null_key (float_key m) h = cc
  same_key_sym null_key (text_key m) h = cc
  same_key_sym (int_key n) null_key h = cc
  same_key_sym (int_key n) (text_key s) h = cc
  same_key_sym (float_key n) null_key h = cc
  same_key_sym (float_key n) (text_key s) h = cc
  same_key_sym (text_key n) null_key h = cc
  same_key_sym (text_key n) (int_key s) h = cc
  same_key_sym (text_key n) (float_key s) h = cc

  same_key_trans :
      (i j k : Key F)
      → same_key floats equals_int i j ≡ true
      → same_key floats equals_int j k ≡ true
      → same_key floats equals_int i k ≡ true
  unfolding same_key
  same_key_trans null_key (int_key n2) k h g = cc
  same_key_trans null_key (float_key x2) k h g = cc
  same_key_trans null_key (text_key s2) k h g = cc
  same_key_trans (int_key n1) null_key k h g = cc
  same_key_trans (int_key n1) (text_key s2) k h g = cc
  same_key_trans (float_key x1) null_key k h g = cc
  same_key_trans (float_key x1) (text_key s2) k h g = cc
  same_key_trans (text_key s1) null_key k h g = cc
  same_key_trans (text_key s1) (int_key n2) k h g = cc
  same_key_trans (text_key s1) (float_key x2) k h g = cc
  same_key_trans null_key null_key k h g = g
  same_key_trans (text_key s) (text_key t) k h g =
      subst (λ i. same_key floats equals_int (text_key i) k ≡ true) (sym (text_equal-eq s t h)) g
  same_key_trans (int_key n) (int_key m) k h g =
      subst (λ i. same_key floats equals_int (int_key i) k ≡ true) (sym (beq_ℤ-eq n m h)) g
  same_key_trans (int_key n) (float_key y) (int_key m) h g =
      subst (λ i. beq_ℤ n i ≡ true) (int_unique y n m h g) (beq_ℤ_self n)
  same_key_trans (int_key n) (float_key y) (float_key z) h g = equal_int y z n g h
  same_key_trans (int_key n) (float_key y) null_key h g = cc
  same_key_trans (int_key n) (float_key y) (text_key s) h g = cc
  same_key_trans (float_key x) (int_key n) (int_key m) h g =
      subst (λ i. equals_int x i ≡ true) (beq_ℤ-eq n m g) h
  same_key_trans (float_key x) (int_key n) (float_key z) h g = int_equal x z n h g
  same_key_trans (float_key x) (int_key n) null_key h g = cc
  same_key_trans (float_key x) (int_key n) (text_key s) h g = cc
  same_key_trans (float_key x) (float_key y) (int_key m) h g = equal_int y x m (equal_sym x y h) g
  same_key_trans (float_key x) (float_key y) (float_key z) h g = equal_trans x y z h g
  same_key_trans (float_key x) (float_key y) null_key h g = cc
  same_key_trans (float_key x) (float_key y) (text_key s) h g = cc

  pub key_equal-IsPartial : IsPartial (key_equal floats equals_int)
  key_equal-IsPartial = record {
    symmetric = λ v w. same_key_sym (key_of v) (key_of w);
    transitive = λ u v w. same_key_trans (key_of u) (key_of v) (key_of w);
  }

-- What Python guarantees of `is`: one object has one value.
abbrev pub IsIdentity : {F : Type 0} → (F → F → Bool) → Type 0
IsIdentity is_same = (x y : _) → is_same x y ≡ true → x ≡ y

module _ {F : Type 0} (floats : Floats F) (equals_int : F → ℤ → Bool)
    (exact : IsExact floats equals_int) (is_same : F → F → Bool)
    (identity : IsIdentity is_same) where
  open exact use {equal_sym, equal_trans, equal_int, int_equal, int_unique}

  abbrev same_float : F → F → Bool
  same_float x y = is_same x y || floats.equal x y

  same_float-cases : (x y : F) → same_float x y ≡ true → (x ≡ y) ⊎ (floats.equal x y ≡ true)
  same_float-cases x y h = elim (Bool-cases (is_same x y)) [
    | inl e ↦ inl (identity x y e)
    | inr e ↦ inr (ground arith)
  ]

  equal-same_float : (x y : F) → floats.equal x y ≡ true → same_float x y ≡ true
  equal-same_float x y h = ground arith

  same_float_sym : (x y : F) → same_float x y ≡ true → same_float y x ≡ true
  same_float_sym x y h = elim (same_float-cases x y h) [
    | inl e ↦ subst (λ z. same_float z x ≡ true) e (subst (λ z. same_float x z ≡ true) (sym e) h)
    | inr e ↦ equal-same_float y x (equal_sym x y e)
  ]

  same_float_trans :
      (x y z : F) → same_float x y ≡ true → same_float y z ≡ true → same_float x z ≡ true
  same_float_trans x y z h g = elim (same_float-cases x y h) [
    | inl e ↦ subst (λ u. same_float u z ≡ true) (sym e) g
    | inr e ↦ elim (same_float-cases y z g) [
      | inl e' ↦ subst (λ u. same_float x u ≡ true) e' h
      | inr e' ↦ equal-same_float x z (equal_trans x y z e e')
    ]
  ]

  by_identity-IsExact : IsExact (by_identity is_same floats) equals_int
  by_identity-IsExact = record {
    equal_sym = same_float_sym;
    equal_trans = same_float_trans;
    equal_int = λ x y n h g. elim (same_float-cases x y h) [
      | inl e ↦ subst (λ u. equals_int u n ≡ true) e g
      | inr e ↦ equal_int x y n e g
    ];
    int_equal = λ x y n h g. equal-same_float x y (int_equal x y n h g);
    int_unique = int_unique;
  }

  tuple_equal_sym :
      (vs ws : List (Scalar F))
      → tuple_equal floats equals_int is_same vs ws ≡ true
      → tuple_equal floats equals_int is_same ws vs ≡ true
  unfolding tuple_equal
  tuple_equal_sym [] [] h = refl
  tuple_equal_sym [] (w ∷ ws) h = cc
  tuple_equal_sym (v ∷ vs) [] h = cc
  tuple_equal_sym (v ∷ vs) (w ∷ ws) h = ground (
    arith,
    tuple_equal_sym vs ws,
    same_key_sym (by_identity is_same floats) equals_int by_identity-IsExact (key_of v) (key_of w),
  )

  tuple_equal_trans :
      (us vs ws : List (Scalar F))
      → tuple_equal floats equals_int is_same us vs ≡ true
      → tuple_equal floats equals_int is_same vs ws ≡ true
      → tuple_equal floats equals_int is_same us ws ≡ true
  unfolding tuple_equal
  tuple_equal_trans [] [] ws h g = g
  tuple_equal_trans [] (v ∷ vs) ws h g = cc
  tuple_equal_trans (u ∷ us) [] ws h g = cc
  tuple_equal_trans (u ∷ us) (v ∷ vs) [] h g = cc
  tuple_equal_trans (u ∷ us) (v ∷ vs) (w ∷ ws) h g = ground (
    arith,
    tuple_equal_trans us vs ws,
    same_key_trans (by_identity is_same floats) equals_int by_identity-IsExact (key_of u) (key_of v)
        (key_of w),
  )

  pub tuple_equal-IsPartial : IsPartial (tuple_equal floats equals_int is_same)
  tuple_equal-IsPartial = record { symmetric = tuple_equal_sym; transitive = tuple_equal_trans }
