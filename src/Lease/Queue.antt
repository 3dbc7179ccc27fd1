-- ===== src/Lease/Queue.antt =====
-- covert-server/src/repos/lease.rs: which leases `pull` hands to the revocation worker.
use covert.Prelude.{
  ℕ, zero, suc, ◌≤◌, ◌≡◌, refl, sym, List, [], ◌∷◌, arith, leb, Bool-cases, inl, inr, ◌⊎◌, In, here,
  there, All, length, take, select, min, select-In, In-select, All-In, ap,
}
use covert.Server.Tables.{Tables, LeaseEntry}
use covert.Lease.{insert_by_expiry, order_by_expiry, pull}

abbrev pub IsOrdered : List LeaseEntry → Type 0
IsOrdered [] = Unit {0}
IsOrdered (x ∷ r) = All (λ y. x.expires_at ≤ y.expires_at) r × IsOrdered r

All-trans :
    (a b : ℕ) (r : List LeaseEntry)
    → a ≤ b
    → All (λ y. b ≤ y.expires_at) r
    → All (λ y. a ≤ y.expires_at) r
All-trans a b [] h k = tt
All-trans a b (x ∷ r) h k = (omega arith, All-trans a b r h k.1)

All-insert :
    (a : ℕ) (le : LeaseEntry) (r : List LeaseEntry)
    → a ≤ le.expires_at
    → All (λ y. a ≤ y.expires_at) r
    → All (λ y. a ≤ y.expires_at) (insert_by_expiry le r)
All-insert a le [] h k = (h, tt)
All-insert a le (x ∷ r) h k = ground (arith, All-insert a le r h k.1)

insert-IsOrdered :
    (le : LeaseEntry) (r : List LeaseEntry) → IsOrdered r → IsOrdered (insert_by_expiry le r)
insert-IsOrdered le [] o = (tt, tt)
insert-IsOrdered le (x ∷ r) o = elim (Bool-cases (leb le.expires_at x.expires_at)) [
  | inl h ↦ rw h ((ground arith, All-trans le.expires_at x.expires_at r (ground arith) o.0), o)
  | inr h ↦ rw h (All-insert x.expires_at le r (ground arith) o.0, insert-IsOrdered le r o.1)
]

order-IsOrdered : (l : List LeaseEntry) → IsOrdered (order_by_expiry l)
order-IsOrdered [] = tt
order-IsOrdered (x ∷ r) = insert-IsOrdered x (order_by_expiry r) (order-IsOrdered r)

All-take : (P : LeaseEntry → Type 0) (n : ℕ) (l : List LeaseEntry) → All P l → All P (take n l)
All-take P zero l h = tt
All-take P (suc n) [] h = tt
All-take P (suc n) (x ∷ r) h = (h.0, All-take P n r h.1)

take-IsOrdered : (n : ℕ) (l : List LeaseEntry) → IsOrdered l → IsOrdered (take n l)
take-IsOrdered zero l o = tt
take-IsOrdered (suc n) [] o = tt
take-IsOrdered (suc n) (x ∷ r) o =
    (All-take (λ y. x.expires_at ≤ y.expires_at) n r o.0, take-IsOrdered n r o.1)

In-cons :
    (y : LeaseEntry) (r l : List LeaseEntry) (a : LeaseEntry)
    → (In a r → In a l)
    → In a (y ∷ r)
    → In a (y ∷ l)
In-cons y r l a f (here e) = here e
In-cons y r l a f (there m) = there (f m)

In-swap :
    (x y : LeaseEntry) (r : List LeaseEntry) (a : LeaseEntry) → In a (y ∷ x ∷ r) → In a (x ∷ y ∷ r)
In-swap x y r a (here e) = there (here e)
In-swap x y r a (there (here e)) = here e
In-swap x y r a (there (there m)) = there (there m)

In-insert :
    (x : LeaseEntry) (l : List LeaseEntry) (a : LeaseEntry)
    → In a (insert_by_expiry x l)
    → In a (x ∷ l)
In-insert x [] a m = m
In-insert x (y ∷ r) a m = elim (Bool-cases (leb x.expires_at y.expires_at)) [
  | inl h ↦ rw h at m
  | inr h ↦
      In-swap x y r a (In-cons y (insert_by_expiry x r) (x ∷ r) a (In-insert x r a) (rw h at m))
]

insert-In :
    (x : LeaseEntry) (l : List LeaseEntry) (a : LeaseEntry)
    → In a (x ∷ l)
    → In a (insert_by_expiry x l)
insert-In x [] a m = m
insert-In x (y ∷ r) a m = elim (Bool-cases (leb x.expires_at y.expires_at)) [
  | inl h ↦ rw h m
  | inr h ↦ rw h (In-cons y (x ∷ r) (insert_by_expiry x r) a (insert-In x r a) (In-swap y x r a m))
]

order-In : (l : List LeaseEntry) (a : LeaseEntry) → In a (order_by_expiry l) → In a l
order-In [] a m = m
order-In (x ∷ r) a m =
    In-cons x (order_by_expiry r) r a (order-In r a) (In-insert x (order_by_expiry r) a m)

In-order : (l : List LeaseEntry) (a : LeaseEntry) → In a l → In a (order_by_expiry l)
In-order [] a m = m
In-order (x ∷ r) a m =
    insert-In x (order_by_expiry r) a (In-cons x r (order_by_expiry r) a (In-order r a) m)

take-In : (n : ℕ) (l : List LeaseEntry) (a : LeaseEntry) → In a (take n l) → In a l
take-In zero l a m = elim m [ ]
take-In (suc n) [] a m = elim m [ ]
take-In (suc n) (x ∷ r) a (here e) = here e
take-In (suc n) (x ∷ r) a (there m) = there (take-In n r a m)

length-take : (n : ℕ) (l : List LeaseEntry) → length (take n l) ≤ n
length-take zero l = omega arith
length-take (suc n) [] = omega arith
length-take (suc n) (x ∷ r) = omega (arith, length-take n r)

-- A row that `take` leaves out comes after rows enough to fill the limit, all of them no later.
left_out :
    (n : ℕ) (l : List LeaseEntry) (a : LeaseEntry)
    → IsOrdered l
    → In a l
    → In a (take n l)
      ⊎ ((n ≡ length (take n l)) × All (λ y. y.expires_at ≤ a.expires_at) (take n l))
left_out zero l a o m = inr (refl, tt)
left_out (suc n) [] a o m = elim m [ ]
left_out (suc n) (x ∷ r) a o (here e) = inl (here e)
left_out (suc n) (x ∷ r) a o (there m) = elim (left_out n r a o.1 m) [
  | inl i ↦ inl (there i)
  | inr k ↦
      inr (ap suc k.0, (All-In (λ (y : LeaseEntry). x.expires_at ≤ y.expires_at) r a o.0 m, k.1))
]

-- `pull` returns at most 100 leases, those that expire first in front.
pull-IsOrdered :
    (limit before : ℕ) (t : Tables)
    → IsOrdered (pull limit before t) × (length (pull limit before t) ≤ 100)
unfolding pull
pull-IsOrdered limit before t =
    let expired = select (λ le. leb le.expires_at before) t.leases in
    (
      take-IsOrdered (min limit 100) (order_by_expiry expired) (order-IsOrdered expired),
      ground (arith, length-take (min limit 100) (order_by_expiry expired)),
    )

-- A lease that `pull` returns is one of the table that has expired.
pub pull-In :
    (limit before : ℕ) (t : Tables) (le : LeaseEntry)
    → In le (pull limit before t)
    → In le t.leases × (le.expires_at ≤ before)
unfolding pull
pull-In limit before t le m =
    let expired = select (λ le. leb le.expires_at before) t.leases in
    let (i, h) =
      select-In (λ le. leb le.expires_at before) t.leases le
        (order-In expired le (take-In (min limit 100) (order_by_expiry expired) le m)) in
    (i, ground (arith, h))

-- An expired lease of the table is returned by `pull`, or else the limit is used up by leases that
-- expired no later.
pub In-pull :
    (limit before : ℕ) (t : Tables) (le : LeaseEntry)
    → In le t.leases
    → le.expires_at ≤ before
    → In le (pull limit before t)
      ⊎ ((length (pull limit before t) ≡ min limit 100)
          × All (λ y. y.expires_at ≤ le.expires_at) (pull limit before t))
unfolding pull
In-pull limit before t le m h =
    let expired = select (λ le. leb le.expires_at before) t.leases in
    let i = In-select (λ le. leb le.expires_at before) t.leases le m (ground (arith, h)) in
    elim (left_out (min limit 100) (order_by_expiry expired) le (order-IsOrdered expired)
      (In-order expired le i)) [ inl k ↦ inl k | inr k ↦ inr (sym k.0, k.1) ]
