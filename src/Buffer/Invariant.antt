-- ===== src/Buffer/Invariant.antt =====
-- What the chains of a buffer stand for: a list of bytes.
use mathlib.Core.List.{append_assoc, append-nil}
use libevent_linux.Prelude.{
  ℕ, zero, suc, ◌+◌, ◌^◌, ◌≤◌, ◌<◌, ◌≡◌, refl, sym, ap, ◌∙◌, not, ◌&&◌, none, some, List, [], ◌∷◌,
  ◌++◌, length, get_elem?, ◌==◌, if_elim, arith,
}
use libevent_linux.Buffer.Chain.{Bytes, Chain, bytes}
use libevent_linux.Buffer.ChainLaws.{IsChain}
use libevent_linux.Buffer.State.{
  Evbuffer, contents_of, modify, free_trailing_from, evbuffer_run_callbacks,
  evbuffer_invoke_callbacks,
}

abbrev pub IsChains : List Chain → Type 0
IsChains [] = Unit {0}
IsChains (c ∷ cs) = IsChain c × IsChains cs

abbrev pub AllEmpty : List Chain → Type 0
AllEmpty [] = Unit {0}
AllEmpty (c ∷ cs) = (c.off ≡ 0) × AllEmpty cs

-- The chains behind a number hold nothing.
abbrev pub EmptyAfter : ℕ → List Chain → Type 0
EmptyAfter i [] = Unit {0}
EmptyAfter zero (c ∷ cs) = AllEmpty cs
EmptyAfter (suc i) (c ∷ cs) = EmptyAfter i cs

abbrev pub off_at : List Chain → ℕ → ℕ
off_at [] i = 0
off_at (c ∷ cs) zero = c.off
off_at (c ∷ cs) (suc i) = off_at cs i

-- The chains are valid and hold the bytes. Behind the last chain with data, which
-- `last_with_datap` points at, there are only empty chains, and the chain that it points at is not
-- empty, or the first.
pub record Stores (bs : Bytes) (cs : List Chain) (last : ℕ) (total_len : ℕ) : Type 0 where
  pub valid : IsChains cs
  pub behind : EmptyAfter last cs
  pub full : 0 < last → 0 < off_at cs last
  pub held : contents_of cs ≡ bs
  pub counted : total_len ≡ length bs
  pub small : length bs < 2 ^ 64

abbrev pub Represents : Evbuffer → Bytes → Type 0
Represents buf bs = Stores bs buf.chains buf.last_with_datap buf.total_len

-- The callbacks' counters are all that evbuffer_invoke_callbacks_ changes.
pub invoke_elim :
    (P : List Chain → ℕ → ℕ → Type 0) (buf : Evbuffer)
    → P buf.chains buf.last_with_datap buf.total_len
    → (let b = evbuffer_invoke_callbacks buf in P b.chains b.last_with_datap b.total_len)
unfolding evbuffer_invoke_callbacks evbuffer_run_callbacks
invoke_elim P buf h =
    let Q = λ (b : Evbuffer). P b.chains b.last_with_datap b.total_len in
    if_elim Q (not buf.has_callbacks) (λ _. h)
      (λ _.
        if_elim Q (buf.n_add_for_cb == 0 && buf.n_del_for_cb == 0) (λ _. h)
          (λ _. if_elim Q buf.deferred_cbs (λ _. h) (λ _. h)))

pub contents-append :
    (xs ys : List Chain) → contents_of (xs ++ ys) ≡ contents_of xs ++ contents_of ys
contents-append [] ys = refl
contents-append (x ∷ xs) ys =
    ap (◌++◌ (bytes x)) (contents-append xs ys)
    ∙ sym (append_assoc (bytes x) (contents_of xs) (contents_of ys))

pub IsChains-append : (xs ys : List Chain) → IsChains xs → IsChains ys → IsChains (xs ++ ys)
IsChains-append [] ys v w = w
IsChains-append (x ∷ xs) ys v w = (v.0, IsChains-append xs ys v.1 w)

pub AllEmpty-bytes : (c : Chain) → c.off ≡ 0 → bytes c ≡ []
AllEmpty-bytes c e = rw e refl

pub AllEmpty-contents : (cs : List Chain) → AllEmpty cs → contents_of cs ≡ []
AllEmpty-contents [] e = refl
AllEmpty-contents (c ∷ cs) e = rw (AllEmpty-bytes c e.0) (AllEmpty-contents cs e.1)

-- Another first chain.
module _ (c : Chain) (cs : List Chain) where
  pub behind-update : (x : Chain) (last : ℕ) → EmptyAfter last (c ∷ cs) → EmptyAfter last (x ∷ cs)
  behind-update x zero h = h
  behind-update x (suc last) h = h

  pub full-update :
      (x : Chain) (last : ℕ)
      → (0 < last → 0 < off_at (c ∷ cs) last)
      → 0 < last
      → 0 < off_at (x ∷ cs) last
  full-update x zero full h = absurd (omega arith)
  full-update x (suc last) full h = full h

pub off_at-below : (cs : List Chain) (i : ℕ) → 0 < off_at cs i → i < length cs
off_at-below [] i h = absurd (omega arith)
off_at-below (c ∷ cs) zero h = omega arith
off_at-below (c ∷ cs) (suc i) h = omega (arith, off_at-below cs i h)

-- A buffer with chains has its last chain with data among them.
pub last-below :
    {bs : Bytes} {cs : List Chain} {last n : ℕ}
    → Stores bs cs last n
    → 0 < length cs
    → last < length cs
last-below {cs} {last = zero} s h = h
last-below {cs} {last = suc last} s h = off_at-below cs (suc last) (s.full (omega arith))

pub get_elem?-IsChain :
    (cs : List Chain) (i : ℕ) (c : Chain) → IsChains cs → get_elem? cs i ≡ some c → IsChain c
get_elem?-IsChain [] i c v e = cc
get_elem?-IsChain (x ∷ cs) zero c v e = let same : x ≡ c = cc in rw (sym same) v.0
get_elem?-IsChain (x ∷ cs) (suc i) c v e = get_elem?-IsChain cs i c v.1 e

pub get_elem?-below :
    (cs : List Chain) (i : ℕ) (c : Chain) → get_elem? cs i ≡ some c → i < length cs
get_elem?-below [] i c e = cc
get_elem?-below (x ∷ cs) zero c e = omega arith
get_elem?-below (x ∷ cs) (suc i) c e = omega (arith, get_elem?-below cs i c e)

pub get_elem?-none : (cs : List Chain) (i : ℕ) → get_elem? cs i ≡ none → length cs ≤ i
get_elem?-none [] i e = omega arith
get_elem?-none (x ∷ cs) zero e = cc
get_elem?-none (x ∷ cs) (suc i) e = omega (arith, get_elem?-none cs i e)

pub get_elem?-off_at :
    (cs : List Chain) (i : ℕ) (c : Chain) → get_elem? cs i ≡ some c → off_at cs i ≡ c.off
get_elem?-off_at [] i c e = cc
get_elem?-off_at (x ∷ cs) zero c e = let same : x ≡ c = cc in ap (λ (y : Chain). y.off) same
get_elem?-off_at (x ∷ cs) (suc i) c e = get_elem?-off_at cs i c e

-- A change of the last chain with data.
module _ (f : Chain → Chain) (d : Bytes) (c : Chain) where
  pub modify-contents :
      (cs : List Chain) (i : ℕ)
      → get_elem? cs i ≡ some c
      → EmptyAfter i cs
      → bytes (f c) ≡ bytes c ++ d
      → contents_of (modify i f cs) ≡ contents_of cs ++ d
  modify-contents [] i e h more = cc
  modify-contents (x ∷ cs) zero e h more =
      let same : x ≡ c = cc in
      let none_left = AllEmpty-contents cs h in
      let alone : (z : Bytes) → z ++ contents_of cs ≡ z =
        λ z. ap (◌++◌ z) none_left ∙ append-nil z in
      let more' : bytes (f x) ≡ bytes x ++ d = rw same more in
      alone (bytes (f x)) ∙ more' ∙ ap (λ z. z ++ d) (sym (alone (bytes x)))
  modify-contents (x ∷ cs) (suc i) e h more =
      ap (◌++◌ (bytes x)) (modify-contents cs i e h more)
      ∙ sym (append_assoc (bytes x) (contents_of cs) d)

  pub modify-IsChains :
      (cs : List Chain) (i : ℕ)
      → get_elem? cs i ≡ some c
      → IsChains cs
      → IsChain (f c)
      → IsChains (modify i f cs)
  modify-IsChains [] i e v w = tt
  modify-IsChains (x ∷ cs) zero e v w = let same : x ≡ c = cc in (rw same w, v.1)
  modify-IsChains (x ∷ cs) (suc i) e v w = (v.0, modify-IsChains cs i e v.1 w)

  pub modify-off_at :
      (cs : List Chain) (i : ℕ) → get_elem? cs i ≡ some c → off_at (modify i f cs) i ≡ (f c).off
  modify-off_at [] i e = cc
  modify-off_at (x ∷ cs) zero e = let same : x ≡ c = cc in ap (λ y. (f y).off) same
  modify-off_at (x ∷ cs) (suc i) e = modify-off_at cs i e

pub modify-EmptyAfter :
    (f : Chain → Chain) (cs : List Chain) (i : ℕ) → EmptyAfter i cs → EmptyAfter i (modify i f cs)
modify-EmptyAfter f [] i h = tt
modify-EmptyAfter f (x ∷ cs) zero h = h
modify-EmptyAfter f (x ∷ cs) (suc i) h = modify-EmptyAfter f cs i h

pub length-modify :
    (f : Chain → Chain) (cs : List Chain) (i : ℕ) → length (modify i f cs) ≡ length cs
length-modify f [] i = refl
length-modify f (x ∷ cs) zero = refl
length-modify f (x ∷ cs) (suc i) = ap suc (length-modify f cs i)

-- The chains that are freed hold nothing.
free_trailing-AllEmpty : (cs : List Chain) → AllEmpty cs → free_trailing_from 0 cs ≡ []
free_trailing-AllEmpty [] e = refl
free_trailing-AllEmpty (c ∷ cs) e = rw e.0 refl

pub free_trailing-contents :
    (cs : List Chain) (i : ℕ)
    → EmptyAfter i cs
    → contents_of (free_trailing_from i cs) ≡ contents_of cs
free_trailing-contents [] i h = refl
free_trailing-contents (c ∷ cs) zero h =
    if_elim (λ l. contents_of l ≡ bytes c ++ contents_of cs) (c.off == 0)
      (λ e.
        let e' : c.off ≡ 0 = ground arith in rw (AllEmpty-bytes c e', AllEmpty-contents cs h) refl)
      (λ _.
        ap (λ l. bytes c ++ contents_of l) (free_trailing-AllEmpty cs h)
        ∙ ap (◌++◌ (bytes c)) (sym (AllEmpty-contents cs h)))
free_trailing-contents (c ∷ cs) (suc i) h = ap (◌++◌ (bytes c)) (free_trailing-contents cs i h)

pub free_trailing-IsChains :
    (cs : List Chain) (i : ℕ) → IsChains cs → IsChains (free_trailing_from i cs)
free_trailing-IsChains [] i v = tt
free_trailing-IsChains (c ∷ cs) zero v =
    if_elim IsChains (c.off == 0) (λ _. tt) (λ _. (v.0, free_trailing-IsChains cs zero v.1))
free_trailing-IsChains (c ∷ cs) (suc i) v = (v.0, free_trailing-IsChains cs i v.1)

-- Another empty chain in their place.
pub free_trailing-EmptyAfter :
    (cs : List Chain) (i : ℕ) (c : Chain)
    → c.off ≡ 0
    → EmptyAfter i cs
    → EmptyAfter i (free_trailing_from i cs ++ c ∷ [])
free_trailing-EmptyAfter [] zero c e h = tt
free_trailing-EmptyAfter [] (suc i) c e h = tt
free_trailing-EmptyAfter (x ∷ cs) zero c e h =
    if_elim (λ l. EmptyAfter 0 (l ++ c ∷ [])) (x.off == 0) (λ _. tt)
      (λ _. rw (free_trailing-AllEmpty cs h) (e, tt))
free_trailing-EmptyAfter (x ∷ cs) (suc i) c e h = free_trailing-EmptyAfter cs i c e h

pub free_trailing-off_at :
    (cs : List Chain) (i : ℕ) (others : List Chain)
    → 0 < off_at cs i
    → 0 < off_at (free_trailing_from i cs ++ others) i
free_trailing-off_at [] i others h = absurd (omega arith)
free_trailing-off_at (x ∷ cs) zero others h =
    if_elim (λ l. 0 < off_at (l ++ others) 0) (x.off == 0) (λ e. absurd (ground (arith, h)))
      (λ _. h)
free_trailing-off_at (x ∷ cs) (suc i) others h = free_trailing-off_at cs i others h

-- A buffer without chains holds nothing.
pub no_chains :
    {bs : Bytes} (cs : List Chain) {last n : ℕ}
    → Stores bs cs last n
    → length cs ≤ last
    → (last ≡ 0) × (bs ≡ [])
no_chains [] {last = zero} s h = (refl, sym s.held)
no_chains [] {last = suc last} s h = absurd (let bad = s.full (omega arith) in omega arith)
no_chains (c ∷ cs) s h = absurd (let below = last-below s (omega arith) in omega arith)

-- The same of the chains behind others.
pub EmptyAfter-append :
    (xs ys : List Chain) (i j : ℕ) → j ≡ length xs + i → EmptyAfter i ys → EmptyAfter j (xs ++ ys)
EmptyAfter-append [] ys i j e h = let same : j ≡ i = omega arith in rw same h
EmptyAfter-append (x ∷ xs) ys i zero e h = absurd (omega arith)
EmptyAfter-append (x ∷ xs) ys i (suc j) e h = EmptyAfter-append xs ys i j (omega arith) h

pub off_at-append :
    (xs ys : List Chain) (i j : ℕ) → j ≡ length xs + i → off_at (xs ++ ys) j ≡ off_at ys i
off_at-append [] ys i j e = let same : j ≡ i = omega arith in ap (off_at ys) same
off_at-append (x ∷ xs) ys i zero e = absurd (omega arith)
off_at-append (x ∷ xs) ys i (suc j) e = off_at-append xs ys i j (omega arith)
