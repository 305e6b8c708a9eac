-- ===== src/Snapshot/Ring.antt =====
-- When the nodes of a snapshot list form a ring through head_, and the stores of New and Delete.
use terp_builder.Base.{ℕ, ◌≡◌, ◌≢◌, sym, ◌∙◌, arith}
use terp_builder.Base.{List, [], ◌∷◌, ◌++◌, All, ◌==◌, if◌then◌else◌}
use terp_builder.Snapshot.{Heap, head, set_next, set_prev, linked_in}
use terp_builder.Snapshot.{delete_snapshot}

-- The nodes at `xs` follow the node at `a`, each linked with the one before, and head_ ends them.
abbrev pub Linked : Heap → ℕ → List ℕ → Type 0
Linked s a [] = ((s a).next ≡ head) × ((s head).prev ≡ a)
Linked s a (x ∷ xs) = ((s a).next ≡ x) × ((s x).prev ≡ a) × Linked s x xs

abbrev pub Without : ℕ → List ℕ → Type 0
Without a xs = All (λ x. x ≢ a) xs

abbrev pub Distinct : List ℕ → Type 0
Distinct [] = Unit
Distinct (x ∷ xs) = Without x xs × Distinct xs

-- The snapshots of a list, from the oldest to the newest.
pub record Holds (s : Heap) (xs : List ℕ) : Type 0 where
  pub linked : Linked s head xs
  pub distinct : Distinct (head ∷ xs)

-- Links that no store touched.
pub frame :
    (s s' : Heap) (a : ℕ) (xs : List ℕ)
    → Linked s a xs
    → All (λ x. (s' x).next ≡ (s x).next) (a ∷ xs)
    → All (λ x. (s' x).prev ≡ (s x).prev) xs
    → (s' head).prev ≡ (s head).prev
    → Linked s' a xs
frame s s' a [] (e, f) (n, _) p h = (n ∙ e, h ∙ f)
frame s s' a (x ∷ xs) (e, f, l) (n, ns) (p, ps) h = (n ∙ e, p ∙ f, frame s s' x xs l ns ps h)

-- What head_ links back to is the last node.
pub last_in :
    (s : Heap) (a b : ℕ) (xs : List ℕ) → Linked s a xs → a ≢ b → Without b xs → (s head).prev ≢ b
last_in s a b [] (e, f) h w p = h (sym f ∙ p)
last_in s a b (x ∷ xs) (e, f, l) h (hx, w) p = last_in s x b xs l hx w p

-- The heap after New, seen at each node.
pub linked_in-next :
    (s : Heap) (b x : ℕ)
    → b ≢ head
    → (s head).prev ≢ b
    → (linked_in b s x).next
      ≡ (if x == (s head).prev then b else if x == b then head else (s x).next)
unfolding linked_in set_next set_prev
linked_in-next s b x h l = ground arith

pub linked_in-prev :
    (s : Heap) (b x : ℕ)
    → b ≢ head
    → (s head).prev ≢ b
    → (linked_in b s x).prev
      ≡ (if x == head then b else if x == b then (s head).prev else (s x).prev)
unfolding linked_in set_next set_prev
linked_in-prev s b x h l = ground arith

pub grown :
    (s : Heap) (b a : ℕ) (xs : List ℕ)
    → Linked s a xs
    → Without b (a ∷ xs)
    → b ≢ head
    → Distinct (a ∷ xs)
    → Without head xs
    → (s head).prev ≢ b
    → Linked (linked_in b s) a (xs ++ (b ∷ []))
grown s b a [] (e, f) (w, _) h d n l = (
  ground (arith, linked_in-next s b a h l),
  ground (arith, linked_in-prev s b b h l),
  (ground (arith, linked_in-next s b b h l), ground (arith, linked_in-prev s b head h l)),
)
grown s b a (x ∷ xs) (e, f, l') (w, (wx, ws)) h ((dx, da), d) (nx, n) l =
    let p = last_in s x a xs l' dx da in
    (
      ground (arith, linked_in-next s b a h l),
      ground (arith, linked_in-prev s b x h l),
      grown s b x xs l' (wx, ws) h d n l,
    )

pub All-implies :
    {A : Type 0} (P Q : A → Type 0) (xs : List A) → ((x : A) → P x → Q x) → All P xs → All Q xs
All-implies P Q [] f h = tt
All-implies P Q (x ∷ xs) f (h, hs) = (f x h, All-implies P Q xs f hs)

pub Without-append : (c : ℕ) (xs ys : List ℕ) → Without c (xs ++ ys) → Without c xs × Without c ys
Without-append c [] ys h = (tt, h)
Without-append c (x ∷ xs) ys (h, hs) = let (a, b) = Without-append c xs ys hs in ((h, a), b)

-- The neighbours of a node in the ring.
pub prev_in :
    (s : Heap) (a c x : ℕ) (xs ys : List ℕ)
    → Linked s a (xs ++ (x ∷ ys))
    → Without c (a ∷ xs)
    → (s x).prev ≢ c
prev_in s a c x [] ys (e, f, l) (w, _) p = w (sym f ∙ p)
prev_in s a c x (z ∷ xs) ys (e, f, l) (w, ws) p = prev_in s z c x xs ys l ws p

next_in :
    (s : Heap) (a c x : ℕ) (xs ys : List ℕ)
    → Linked s a (xs ++ (x ∷ ys))
    → head ≢ c
    → Without c ys
    → (s x).next ≢ c
next_in s a c x [] [] (e, f, (e', f')) h w p = h (sym e' ∙ p)
next_in s a c x [] (y ∷ ys) (e, f, (e', _, _)) h (w, _) p = w (sym e' ∙ p)
next_in s a c x (z ∷ xs) ys (e, f, l) h w p = next_in s z c x xs ys l h w p

-- The heap after Delete, seen at each node.
delete-next :
    (s : Heap) (b x : ℕ)
    → (s b).prev ≢ b
    → (delete_snapshot b s x).next ≡ (if x == (s b).prev then (s b).next else (s x).next)
unfolding delete_snapshot set_next set_prev
delete-next s b x h = ground arith

delete-prev :
    (s : Heap) (b x : ℕ)
    → (s b).prev ≢ b
    → (delete_snapshot b s x).prev ≡ (if x == (s b).next then (s b).prev else (s x).prev)
unfolding delete_snapshot set_next set_prev
delete-prev s b x h = ground arith

pub shrunk :
    (s : Heap) (x a : ℕ) (xs ys : List ℕ)
    → Linked s a (xs ++ (x ∷ ys))
    → Distinct (a ∷ (xs ++ (x ∷ ys)))
    → Without head (xs ++ (x ∷ ys))
    → (s x).prev ≢ x
    → Linked (delete_snapshot x s) a (xs ++ ys)
shrunk s x a [] [] (e, f, (e', f')) d n p =
    (ground (arith, delete-next s x a p), ground (arith, delete-prev s x head p))
shrunk s x a [] (y ∷ ys) (e, f, (e', f', l)) ((dx, (dy, da)), ((dxy, dxs), (dys, d))) (nx, (ny, n))
      p =
    (
      ground (arith, delete-next s x a p),
      ground (arith, delete-prev s x y p),
      frame s (delete_snapshot x s) y ys l
          (All-implies _ _ (y ∷ ys) (λ z h. ground (arith, delete-next s x z p)) (dy, da))
          (All-implies _ _ ys (λ z h. ground (arith, delete-prev s x z p)) dys)
          (ground (arith, delete-prev s x head p)),
    )
shrunk s x a (z ∷ xs) ys (e, f, l) ((dz, da), (dzs, d)) (nz, n) p =
    let (before, _) = Without-append a xs (x ∷ ys) da in
    let (_, (_, after)) = Without-append z xs (x ∷ ys) dzs in
    let q = prev_in s z a x xs ys l (dz, before) in
    let r = next_in s z z x xs ys l (λ q. nz (sym q)) after in
    (
      ground (arith, delete-next s x a p),
      ground (arith, delete-prev s x z p),
      shrunk s x z xs ys l (dzs, d) n p,
    )
