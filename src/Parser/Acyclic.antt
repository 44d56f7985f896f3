-- ===== src/Parser/Acyclic.antt =====
-- The search of `FindCycle`, manager/src/ConfigParser.cpp, and what it finds.
use improved_process_manager.Base.{
  ℕ, zero, suc, ◌+◌, ◌≤◌, ◌<◌, ◌≡◌, ◌≢◌, ◌∙◌, ◌⊎◌, inl, inr, refl, subst, arith, false, List, [],
  ◌∷◌, ◌++◌, some, ◌==◌, if◌then◌else◌, length, get_elem?, get_or, set, replicate, length-set,
  length-replicate, Text, Bool-cases,
}
use improved_process_manager.Config.{ServiceConfig}
use improved_process_manager.Parser.Cycles.{
  Visit, finished, position, visit_one, visit_each, name_of, needs_of, visit, visit_from,
  find_cycle,
}
use improved_process_manager.Parser.Marks.{
  Post, Post-and_then, Post-weaken, position-lt, get_or-set_self, get_or-set_other, zeros,
  zeros-set, zeros-set_le, zeros-replicate, get_or-replicate,
}

-- No chain of dependencies from the service at an index goes on forever.
pub data Grounded (services : List ServiceConfig) : ℕ → Type 0 where
  ground_all :
      (i : ℕ)
      → ((k j : ℕ) (dependency : Text)
          → get_elem? (needs_of (get_elem? services i)) k ≡ some dependency
          → position services dependency ≡ some j
          → Grounded services j)
      → Grounded services i

module _ (services : List ServiceConfig) where
  -- Every dependency is the name of a service.
  abbrev pub AllKnown : Type 0
  AllKnown =
      (i k : ℕ) (dependency : Text)
      → get_elem? (needs_of (get_elem? services i)) k ≡ some dependency
      → (j : ℕ) × (position services dependency ≡ some j)

  -- A service without a mark, on the current path, or grounded.
  abbrev IsMarked : (ℕ → Type 0) → List ℕ → Type 0
  IsMarked OnPath m =
      (k : ℕ) → (get_or m k 0 ≡ 0) ⊎ ((get_or m k 0 ≡ 1) × OnPath k) ⊎ Grounded services k

  record IsState (OnPath : ℕ → Type 0) (left : ℕ) (m : List ℕ) : Type 0 where
    marked : IsMarked OnPath m
    sized : length m ≡ length services
    few : zeros m ≤ left

  abbrev AllGrounded : List Text → Type 0
  AllGrounded needs =
      (k j : ℕ) (dependency : Text)
      → get_elem? needs k ≡ some dependency
      → position services dependency ≡ some j
      → Grounded services j

  marked_done :
      (OnPath : ℕ → Type 0) (m : List ℕ) (next : ℕ)
      → (get_or m next 0 == 1) ≡ false
      → (get_or m next 0 == 0) ≡ false
      → (get_or m next 0 ≡ 0) ⊎ ((get_or m next 0 ≡ 1) × OnPath next) ⊎ Grounded services next
      → Grounded services next
  marked_done OnPath m next off done (inl zero_mark) = absurd (ground arith)
  marked_done OnPath m next off done (inr (inl (one_mark, on))) = absurd (ground arith)
  marked_done OnPath m next off done (inr (inr g)) = g

  module _ (OnPath : ℕ → Type 0) (left : ℕ) (inner : ℕ → List ℕ → Visit)
      (inner_lem : (next : ℕ) (m : List ℕ)
        → next < length services
        → get_or m next 0 ≡ 0
        → IsState OnPath left m
        → Post (λ r. IsState OnPath left r × Grounded services next) (inner next m)) where
    visit_one-Post :
        (path : List Text) (dependency : Text) (next : ℕ) (m : List ℕ)
        → position services dependency ≡ some next
        → IsState OnPath left m
        → Post
            (λ r. IsState OnPath left r × Grounded services next)
            (visit_one inner path dependency (some next) m)
    unfolding visit_one
    visit_one-Post path dependency next m e v = elim (Bool-cases (get_or m next 0 == 1)) [
      | inl on ↦ rw on tt
      | inr off ↦ elim (Bool-cases (get_or m next 0 == 0)) [
        | inl fresh ↦
            rw (off, fresh)
              (inner_lem next m (position-lt services dependency next e) (ground arith) v)
        | inr done ↦ rw (off, done) (v, marked_done OnPath m next off done (v.marked next))
      ]
    ]

    -- After a dependency that is grounded, the rest of them.
    AllGrounded-cons :
        (dependency : Text) (needs : List Text) (next : ℕ)
        → position services dependency ≡ some next
        → Grounded services next
        → AllGrounded needs
        → AllGrounded (dependency ∷ needs)
    AllGrounded-cons dependency needs next e g rest zero j other at_k at_j =
        let same : dependency ≡ other = ground arith in
        let moved : position services dependency ≡ some j = rw same at_j in
        let there : next ≡ j = ground arith in subst (Grounded services) there g
    AllGrounded-cons dependency needs next e g rest (suc k) j other at_k at_j =
        rest k j other at_k at_j

    visit_each-Post :
        (path needs : List Text) (m : List ℕ)
        → ((k : ℕ) (dependency : Text)
            → get_elem? needs k ≡ some dependency
            → (j : ℕ) × (position services dependency ≡ some j))
        → IsState OnPath left m
        → Post
            (λ r. IsState OnPath left r × AllGrounded needs)
            (visit_each services inner path needs m)
    unfolding visit_each
    visit_each-Post path [] m known v = (v, λ k j dependency e. absurd (ground arith))
    visit_each-Post path (dependency ∷ needs) m known v =
        let (next, e) = known 0 dependency refl in
        rw e (
          Post-and_then _ _ (visit_one inner path dependency (some next) m) _
            (visit_one-Post path dependency next m e v)
            (λ r (w, g).
              Post-weaken _ _ (visit_each services inner path needs r)
                (visit_each-Post path needs r (λ k. known (suc k)) w)
                (λ q (u, rest). (u, AllGrounded-cons dependency needs next e g rest))))

  -- Marking a service that starts its visit.
  entered_marks :
      (OnPath : ℕ → Type 0) (m : List ℕ) (node : ℕ)
      → node < length m
      → IsMarked OnPath m
      → IsMarked (λ k. OnPath k ⊎ (k ≡ node)) (set m node 1)
  entered_marks OnPath m node inside marked k = elim (Bool-cases (node == k)) [
    | inl here ↦
        let same : k ≡ node = ground arith in
        let one : get_or (set m node 1) k 0 ≡ 1 = rw same (get_or-set_self m node 1 inside) in
        inr (inl (one, inr same))
    | inr away ↦
        let kept : get_or (set m node 1) k 0 ≡ get_or m k 0 =
          get_or-set_other m node k 1 (λ e. ground arith) in
        elim (marked k) [
          | inl none_yet ↦ inl (kept ∙ none_yet)
          | inr (inl (one, on)) ↦ inr (inl (kept ∙ one, inl on))
          | inr (inr g) ↦ inr (inr g)
        ]
  ]

  entered :
      (OnPath : ℕ → Type 0) (left : ℕ) (m : List ℕ) (node : ℕ)
      → node < length services
      → get_or m node 0 ≡ 0
      → IsState OnPath (suc left) m
      → IsState (λ k. OnPath k ⊎ (k ≡ node)) left (set m node 1)
  entered OnPath left m node inside fresh v =
      let bound : node < length m = omega (arith, v.sized) in
      record {
        marked = entered_marks OnPath m node bound v.marked;
        sized = length-set m node 1 ∙ v.sized;
        few = omega (arith, v.few, zeros-set m node 0 bound fresh);
      }

  -- Marking a service that ends its visit.
  left_marks :
      (OnPath : ℕ → Type 0) (m : List ℕ) (node : ℕ)
      → Grounded services node
      → IsMarked (λ k. OnPath k ⊎ (k ≡ node)) m
      → IsMarked OnPath (set m node 2)
  left_marks OnPath m node g marked k = elim (Bool-cases (node == k)) [
    | inl here ↦ let same : node ≡ k = ground arith in inr (inr (subst (Grounded services) same g))
    | inr away ↦
        let kept : get_or (set m node 2) k 0 ≡ get_or m k 0 =
          get_or-set_other m node k 2 (λ e. ground arith) in
        elim (marked k) [
          | inl none_yet ↦ inl (kept ∙ none_yet)
          | inr (inl (one, inl on)) ↦ inr (inl (kept ∙ one, on))
          | inr (inl (one, inr e)) ↦ absurd (ground arith)
          | inr (inr g) ↦ inr (inr g)
        ]
  ]

  left_done :
      (OnPath : ℕ → Type 0) (left : ℕ) (m : List ℕ) (node : ℕ)
      → Grounded services node
      → IsState (λ k. OnPath k ⊎ (k ≡ node)) left m
      → IsState OnPath (suc left) (set m node 2)
  left_done OnPath left m node g v = record {
    marked = left_marks OnPath m node g v.marked;
    sized = length-set m node 2 ∙ v.sized;
    few = omega (arith, v.few, zeros-set_le m node 1);
  }

  visit-Post :
      AllKnown
      → (fuel : ℕ) (OnPath : ℕ → Type 0) (left node : ℕ) (m : List ℕ) (path : List Text)
      → left ≤ fuel
      → node < length services
      → get_or m node 0 ≡ 0
      → IsState OnPath left m
      → Post (λ r. IsState OnPath left r × Grounded services node) (visit fuel services node m path)
  unfolding visit
  visit-Post known fuel OnPath zero node m path enough inside fresh v =
      absurd (omega (arith, v.few, zeros-set m node 0 (omega (arith, v.sized)) fresh))
  visit-Post known zero OnPath (suc left) node m path enough inside fresh v = absurd (omega arith)
  visit-Post known (suc fuel) OnPath (suc left) node m path enough inside fresh v =
      let inner : ℕ → List ℕ → Visit =
        λ next r. visit fuel services next r (path ++ name_of (get_elem? services node) ∷ []) in
      let Here : ℕ → Type 0 = λ k. OnPath k ⊎ (k ≡ node) in
      Post-and_then _ _
        (visit_each services inner _ (needs_of (get_elem? services node)) (set m node 1)) _
        (visit_each-Post Here left inner
          (λ next r ok new w. visit-Post known fuel Here left next r _ (omega arith) ok new w) _
          (needs_of (get_elem? services node)) (set m node 1) (known node)
          (entered OnPath left m node inside fresh v))
        (λ r (w, needs). let g = ground_all node needs in (left_done OnPath left r node g w, g))

  idle_done :
      (m : List ℕ) (i : ℕ)
      → (get_or m i 0 == 0) ≡ false
      → (get_or m i 0 ≡ 0) ⊎ ((get_or m i 0 ≡ 1) × ⊥) ⊎ Grounded services i
      → Grounded services i
  idle_done m i done (inl zero_mark) = absurd (ground arith)
  idle_done m i done (inr (inl (one_mark, on))) = absurd on
  idle_done m i done (inr (inr g)) = g

  -- Outside every visit no service is on the path.
  abbrev Idle : List ℕ → Type 0
  Idle = IsState (λ k. ⊥) (length services)

  abbrev pub GroundedFrom : ℕ → ℕ → Type 0
  GroundedFrom left i = (k : ℕ) → i ≤ k → k < i + left → Grounded services k

  visit_now-Post :
      AllKnown
      → (i : ℕ) (m : List ℕ) → i < length services
      → Idle m
      → Post
          (λ r. Idle r × Grounded services i)
          (if get_or m i 0 == 0 then visit (length services) services i m [] else finished m)
  visit_now-Post known i m inside v = elim (Bool-cases (get_or m i 0 == 0)) [
    | inl fresh ↦ rw fresh (
        visit-Post known (length services) (λ k. ⊥) (length services) i m [] (omega arith) inside
          (ground arith) v)
    | inr done ↦ rw done (v, idle_done m i done (v.marked i))
  ]

  visit_from-Post :
      AllKnown
      → (left i : ℕ) (m : List ℕ) → i + left ≤ length services
      → Idle m
      → Post (λ r. Idle r × GroundedFrom left i) (visit_from services left i m)
  unfolding visit_from
  visit_from-Post known zero i m inside v = (v, λ k low high. absurd (omega arith))
  visit_from-Post known (suc left) i m inside v =
      Post-and_then (λ r. Idle r × Grounded services i) (λ r. Idle r × GroundedFrom (suc left) i)
        (if get_or m i 0 == 0 then visit (length services) services i m [] else finished m)
        (visit_from services left (suc i)) (visit_now-Post known i m (omega arith) v)
        (λ r (w, g).
          Post-weaken _ _ (visit_from services left (suc i) r)
            (visit_from-Post known left (suc i) r (omega arith) w)
            (λ q (u, rest). (
              u,
              λ k low high. elim (Bool-cases (i == k)) [
                | inl here ↦ let same : i ≡ k = ground arith in subst (Grounded services) same g
                | inr away ↦
                    let later : i ≢ k = λ e. ground arith in rest k (omega arith) (omega arith)
              ],
            )))

  -- When every dependency is known, the search ends within its fuel; when it finds no cycle, every
  -- service is grounded.
  pub find_cycle-Grounded :
      AllKnown → Post (λ r. GroundedFrom (length services) 0) (find_cycle services)
  unfolding find_cycle
  find_cycle-Grounded known =
      let clear : Idle (replicate (length services) 0) = record {
        marked = λ k. inl (get_or-replicate (length services) k);
        sized = length-replicate (length services) 0;
        few = omega (arith, zeros-replicate (length services));
      } in
      Post-weaken _ _ (find_cycle services)
        (visit_from-Post known (length services) 0 _ (omega arith) clear) (λ r (w, g). g)
