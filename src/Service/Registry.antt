-- ===== src/Service/Registry.antt =====
-- The registry and the live objects of a service have the same connections.
use multithread_libevent_exa.Prelude.{
  ℕ, suc, ◌+◌, ◌<◌, ◌≡◌, ◌≢◌, refl, sym, ap, subst, ◌∙◌, arith, true, false, List, [], ◌∷◌, none,
  some, ◌==◌, if◌then◌else◌, ==→≡, ≡→==, Bool-cases, inl, inr,
}
use multithread_libevent_exa.Service.{Conn, Service, find, erase, insert}

-- How often a number stands in a list.
unfoldable pub count : ℕ → List ℕ → ℕ
count n [] = 0
count n (x ∷ xs) = let rest = count n xs in if n == x then suc rest else rest

abbrev pub entries : List (ℕ × Conn) → List (ℕ × ℕ)
entries [] = []
entries ((a, c) ∷ os) = (c.conn_id, a) ∷ entries os

abbrev pub fds_of : List (ℕ × Conn) → List ℕ
fds_of [] = []
fds_of ((a, c) ∷ os) = c.fd ∷ fds_of os

-- No address and no number occurs twice, and all numbers are below a bound.
abbrev pub Apart : ℕ → Conn → List (ℕ × Conn) → Type 0
Apart a c [] = Unit {0}
Apart a c ((b, d) ∷ os) = (a ≢ b) × (c.conn_id ≢ d.conn_id) × Apart a c os

abbrev pub Numbered : ℕ → List (ℕ × Conn) → Type 0
Numbered n [] = Unit {0}
Numbered n ((a, c) ∷ os) = (c.conn_id < n) × Apart a c os × Numbered n os

pub record IsRegistered (s : Service) : Type 0 where
  pub same : s.connect_mgr ≡ entries s.objects
  pub numbered : Numbered s.unique_id s.objects
  pub balanced : (fd : ℕ) → count fd s.accepted ≡ count fd s.closed + count fd (fds_of s.objects)

pub count_cons : (n x : ℕ) (l : List ℕ) → count n (x ∷ l) ≡ count n (x ∷ []) + count n l
unfolding count
count_cons n x l = elim (Bool-cases (n == x)) [
  | inl e ↦ rw e (omega arith)
  | inr e ↦ rw e (omega arith)
]

pub count_nil : (n : ℕ) → count n [] ≡ 0
unfolding count
count_nil n = refl

pub erase_twice : {A : Type 0} (k : ℕ) (m : List (ℕ × A)) → erase k (erase k m) ≡ erase k m
unfolding erase
erase_twice k [] = refl
erase_twice k ((j, x) ∷ m) = elim (Bool-cases (k == j)) [
  | inl e ↦ rw e (erase_twice k m)
  | inr e ↦ rw e (rw e (ap (λ l. (j, x) ∷ l) (erase_twice k m)))
]

pub insert_fresh : (k a : ℕ) (m : List (ℕ × ℕ)) → find k m ≡ none → insert k a m ≡ (k, a) ∷ m
unfolding insert
insert_fresh k a m e = rw (e, insert) refl

pub find_above :
    (n k : ℕ) (os : List (ℕ × Conn)) → Numbered n os → n < suc k → find k (entries os) ≡ none
unfolding find
find_above n k [] v lt = refl
find_above n k ((a, c) ∷ os) v lt = elim (Bool-cases (k == c.conn_id)) [
  | inl e ↦ absurd (omega (arith, ==→≡ _ _ e, v.0))
  | inr e ↦ rw e (find_above n k os v.2 lt)
]

pub Numbered-up : (n : ℕ) (os : List (ℕ × Conn)) → Numbered n os → Numbered (suc n) os
Numbered-up n [] v = tt
Numbered-up n ((a, c) ∷ os) v = (omega (arith, v.0), v.1, Numbered-up n os v.2)

-- An object that is apart from the others is found nowhere among them.
pub erase-Apart : (a : ℕ) (c : Conn) (os : List (ℕ × Conn)) → Apart a c os → erase a os ≡ os
unfolding erase
erase-Apart a c [] p = refl
erase-Apart a c ((b, d) ∷ os) p = elim (Bool-cases (a == b)) [
  | inl e ↦ absurd (p.0 (==→≡ _ _ e))
  | inr e ↦ rw e (ap (λ l. (b, d) ∷ l) (erase-Apart a c os p.2))
]

pub erase-entries-Apart :
    (a : ℕ) (c : Conn) (os : List (ℕ × Conn))
    → Apart a c os
    → erase c.conn_id (entries os) ≡ entries os
unfolding erase
erase-entries-Apart a c [] p = refl
erase-entries-Apart a c ((b, d) ∷ os) p = elim (Bool-cases (c.conn_id == d.conn_id)) [
  | inl e ↦ absurd (p.1 (==→≡ _ _ e))
  | inr e ↦ rw e (ap (λ l. (d.conn_id, b) ∷ l) (erase-entries-Apart a c os p.2))
]

find_head :
    (a b : ℕ) (c d : Conn) (os : List (ℕ × Conn))
    → (a == b) ≡ true
    → find a ((b, d) ∷ os) ≡ some c
    → d ≡ c
unfolding find
find_head a b c d os q e = from_some (subst (λ t. (if t then some d else find a os) ≡ some c) q e)
  where
    from_some : some d ≡ some c → d ≡ c
    from_some h = cc

find_tail :
    (a b : ℕ) (c d : Conn) (os : List (ℕ × Conn))
    → (a == b) ≡ false
    → find a ((b, d) ∷ os) ≡ some c
    → find a os ≡ some c
unfolding find
find_tail a b c d os q e = subst (λ t. (if t then some d else find a os) ≡ some c) q e

erase_equal :
    (a b : ℕ) (d : Conn) (os : List (ℕ × Conn)) → (a == b) ≡ true → Apart b d os → erase a os ≡ os
erase_equal a b d os q p = subst (λ x. erase x os ≡ os) (sym (==→≡ a b q)) (erase-Apart b d os p)

ne→== : (a b : ℕ) → a ≢ b → (a == b) ≡ false
ne→== a b h = elim (Bool-cases (a == b)) [ inl e ↦ absurd (h (==→≡ _ _ e)) | inr e ↦ e ]

-- Who is apart from all is apart from the one found.
pub find-Apart :
    (a : ℕ) (c : Conn) (os : List (ℕ × Conn)) (b : ℕ) (d : Conn)
    → Apart a c os
    → find b os ≡ some d
    → (a ≢ b) × (c.conn_id ≢ d.conn_id)
unfolding find
find-Apart a c [] b d p e = cc
find-Apart a c ((b', d') ∷ os) b d p e = elim (Bool-cases (b == b')) [
  | inl q ↦ (
    λ h. p.0 (h ∙ ==→≡ b b' q),
    λ h. p.1 (h ∙ ap (λ x. x.conn_id) (sym (find_head b b' d d' os q e))),
  )
  | inr q ↦ find-Apart a c os b d p.2 (find_tail b b' d d' os q e)
]

-- Erasing an object by its address, and its entry by its number.
pub erase-entries :
    (n a : ℕ) (c : Conn) (os : List (ℕ × Conn))
    → Numbered n os
    → find a os ≡ some c
    → erase c.conn_id (entries os) ≡ entries (erase a os)
unfolding erase find
erase-entries n a c [] v e = cc
erase-entries n a c ((b, d) ∷ os) v e = elim (Bool-cases (a == b)) [
  | inl q ↦
      subst (λ x. erase x.conn_id (entries ((b, d) ∷ os)) ≡ entries (erase a ((b, d) ∷ os)))
        (find_head a b c d os q e)
        (rw (≡→== d.conn_id d.conn_id refl)
          (rw q (erase-entries-Apart b d os v.1 ∙ ap entries (sym (erase_equal a b d os q v.1)))))
  | inr q ↦
      let e' = find_tail a b c d os q e in
      rw (ne→== c.conn_id d.conn_id (λ h. (find-Apart b d os a c v.1 e').1 (sym h)))
        (rw q (ap (λ l. (d.conn_id, b) ∷ l) (erase-entries n a c os v.2 e')))
]

pub Apart-erase :
    (a b : ℕ) (c : Conn) (os : List (ℕ × Conn)) → Apart a c os → Apart a c (erase b os)
unfolding erase
Apart-erase a b c [] p = tt
Apart-erase a b c ((b', d) ∷ os) p = elim (Bool-cases (b == b')) [
  | inl e ↦ rw e (Apart-erase a b c os p.2)
  | inr e ↦ rw e (p.0, p.1, Apart-erase a b c os p.2)
]

pub Numbered-erase : (n b : ℕ) (os : List (ℕ × Conn)) → Numbered n os → Numbered n (erase b os)
unfolding erase
Numbered-erase n b [] v = tt
Numbered-erase n b ((a, c) ∷ os) v = elim (Bool-cases (b == a)) [
  | inl e ↦ rw e (Numbered-erase n b os v.2)
  | inr e ↦ rw e (v.0, Apart-erase a b c os v.1, Numbered-erase n b os v.2)
]

count_swap : (n x y : ℕ) (l : List ℕ) → count n (x ∷ y ∷ l) ≡ count n (y ∷ x ∷ l)
unfolding count
count_swap n x y l = elim (Bool-cases (n == x)) [
  | inl e ↦ elim (Bool-cases (n == y)) [ inl f ↦ rw e (rw f refl) | inr f ↦ rw e (rw f refl) ]
  | inr e ↦ elim (Bool-cases (n == y)) [ inl f ↦ rw e (rw f refl) | inr f ↦ rw e (rw f refl) ]
]

-- Erasing an object takes its descriptor out of the list of descriptors.
pub count-erase :
    (n a fd : ℕ) (c : Conn) (os : List (ℕ × Conn))
    → Numbered n os
    → find a os ≡ some c
    → count fd (fds_of os) ≡ count fd (c.fd ∷ fds_of (erase a os))
unfolding erase find count
count-erase n a fd c [] v e = cc
count-erase n a fd c ((b, d) ∷ os) v e = elim (Bool-cases (a == b)) [
  | inl q ↦
      subst
        (λ x. count fd (fds_of ((b, d) ∷ os)) ≡ count fd (x.fd ∷ fds_of (erase a ((b, d) ∷ os))))
        (find_head a b c d os q e)
        (rw q (ap (λ l. count fd (d.fd ∷ fds_of l)) (sym (erase_equal a b d os q v.1))))
  | inr q ↦ rw q (
      ap (λ m. if fd == d.fd then suc m else m)
        (count-erase n a fd c os v.2 (find_tail a b c d os q e))
      ∙ count_swap fd d.fd c.fd (fds_of (erase a os)))
]
