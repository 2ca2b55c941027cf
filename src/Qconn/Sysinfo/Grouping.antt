-- ===== src/Qconn/Sysinfo/Grouping.antt =====
-- How `parsePidinThreads` groups the threads of a listing by process.
use qnx8_qconn_mcp.Prelude.{
  ◌≡◌, refl, sym, ap, ◌∙◌, Bool, true, false, ◌||◌, List, [], ◌∷◌, ◌++◌, append-nil, append_assoc,
  Bytes, if◌then◌else◌, length, ℤ, pos, negsuc, arith, Bool-cases, inl, inr,
}
use qnx8_qconn_mcp.Qconn.Noise.{split_lines}
use qnx8_qconn_mcp.Qconn.Sysinfo.{
  Thread, Process, Row, same_int, rows_of, add_row, group, parse_pidin_threads,
}

-- The threads of a process in the result, all entries of it together.
abbrev pub threads_of : ℤ → List Process → List Thread
threads_of pid [] = []
threads_of pid (p ∷ ps) =
    let rest = threads_of pid ps in if same_int p.pid pid then p.threads ++ rest else rest

-- The threads of a process in the listing.
abbrev pub threads_in : ℤ → List Row → List Thread
threads_in pid [] = []
threads_in pid (r ∷ rs) =
    let rest = threads_in pid rs in if same_int r.pid pid then r.thread ∷ rest else rest

abbrev pub is_listed : ℤ → List Process → Bool
is_listed pid [] = false
is_listed pid (p ∷ ps) = same_int p.pid pid || is_listed pid ps

-- Each process stands once, and its threads are counted.
abbrev pub IsGrouped : List Process → Type 0
IsGrouped [] = Unit
IsGrouped (p ∷ ps) =
    (is_listed p.pid ps ≡ false) × (p.num_threads ≡ length p.threads) × IsGrouped ps

same_int_sound : (a b : ℤ) → same_int a b ≡ true → a ≡ b
same_int_sound (pos a) (pos b) h = ground arith
same_int_sound (negsuc a) (negsuc b) h = ground arith
same_int_sound (pos a) (negsuc b) h = cc
same_int_sound (negsuc a) (pos b) h = cc

same_int_refl : (a : ℤ) → same_int a a ≡ true
same_int_refl (pos a) = ground arith
same_int_refl (negsuc a) = ground arith

same_int_other : (a b c : ℤ) → same_int a b ≡ true → same_int a c ≡ same_int b c
same_int_other a b c h = ap (λ x. same_int x c) (same_int_sound a b h)

same_int_apart : (a b c : ℤ) → same_int a b ≡ true → same_int a c ≡ false → same_int c b ≡ false
same_int_apart a b c h k = elim (Bool-cases (same_int c b)) [
  | inr f ↦ f
  | inl t ↦
      let there : c ≡ a = same_int_sound c b t ∙ sym (same_int_sound a b h) in
      let also : same_int a c ≡ true = ap (same_int a) there ∙ same_int_refl a in absurd (cc)
]

threads_of_unlisted :
    (pid : ℤ) (ps : List Process) → is_listed pid ps ≡ false → threads_of pid ps ≡ []
threads_of_unlisted pid [] h = refl
threads_of_unlisted pid (p ∷ ps) h = elim (Bool-cases (same_int p.pid pid)) [
  | inl e ↦ absurd (cc (rw e at h))
  | inr e ↦ rw e (threads_of_unlisted pid ps (rw e at h))
]

threads_of-add_row :
    (pid : ℤ) (r : Row) (ps : List Process)
    → IsGrouped ps
    → threads_of pid (add_row r ps)
      ≡ (if same_int r.pid pid then threads_of pid ps ++ r.thread ∷ [] else threads_of pid ps)
unfolding add_row
threads_of-add_row pid r [] g = elim (Bool-cases (same_int r.pid pid)) [
  | inl e ↦ rw e
  | inr e ↦ rw e
]
threads_of-add_row pid r (p ∷ ps) g = elim (Bool-cases (same_int p.pid r.pid)) [
  | inl q ↦
      let same_ : same_int p.pid pid ≡ same_int r.pid pid = same_int_other p.pid r.pid pid q in
      elim (Bool-cases (same_int r.pid pid)) [
        | inl e ↦
            let here : threads_of pid ps ≡ [] =
              ap (λ x. threads_of x ps) (sym (same_int_sound p.pid pid (same_ ∙ e)))
              ∙ threads_of_unlisted p.pid ps g.0 in
            rw q (
              rw (e, same_ ∙ e, here)
                (append-nil (p.threads ++ r.thread ∷ [])
                  ∙ ap (λ t. t ++ r.thread ∷ []) (sym (append-nil p.threads))))
        | inr e ↦ rw q (rw (e, same_ ∙ e))
      ]
  | inr q ↦ elim (Bool-cases (same_int p.pid pid)) [
    | inl e ↦
        let f = same_int_apart p.pid pid r.pid e q in
        let later : threads_of pid (add_row r ps) ≡ threads_of pid ps =
          threads_of-add_row pid r ps g.2 ∙ rw f in
        rw q (rw (e, f) (ap (λ t. p.threads ++ t) later))
    | inr e ↦ rw q (rw e (threads_of-add_row pid r ps g.2))
  ]
]

same_int_flip : (a b : ℤ) → same_int a b ≡ false → same_int b a ≡ false
same_int_flip a b h = elim (Bool-cases (same_int b a)) [
  | inr f ↦ f
  | inl t ↦
      let also : same_int a b ≡ true = ap (same_int a) (same_int_sound b a t) ∙ same_int_refl a in
      absurd (cc)
]

regroup :
    (b : Bool) (before after : List Thread) (t : Thread)
    → (if b then before ++ t ∷ [] else before) ++ after ≡ before ++ (if b then t ∷ after else after)
regroup true before after t = append_assoc before (t ∷ []) after
regroup false before after t = refl

is_listed-add_row :
    (pid : ℤ) (r : Row) (ps : List Process)
    → same_int r.pid pid ≡ false
    → is_listed pid (add_row r ps) ≡ is_listed pid ps
unfolding add_row
is_listed-add_row pid r [] h = rw h
is_listed-add_row pid r (p ∷ ps) h = elim (Bool-cases (same_int p.pid r.pid)) [
  | inl q ↦ rw q
  | inr q ↦ rw q (rw (is_listed-add_row pid r ps h))
]

add_row-IsGrouped : (r : Row) (ps : List Process) → IsGrouped ps → IsGrouped (add_row r ps)
unfolding add_row
add_row-IsGrouped r [] g = (refl, refl, tt)
add_row-IsGrouped r (p ∷ ps) g = elim (Bool-cases (same_int p.pid r.pid)) [
  | inl q ↦ rw q (g.0, refl, g.2)
  | inr q ↦
      let other = same_int_flip p.pid r.pid q in
      let absent : is_listed p.pid (add_row r ps) ≡ false =
        is_listed-add_row p.pid r ps other ∙ g.0 in
      rw q (absent, g.1, add_row-IsGrouped r ps g.2)
]

-- What a listing's rows make of the processes so far.
record Grouped (rs : List Row) (before after : List Process) : Type 0 where
  grouped : IsGrouped after
  threads : (pid : ℤ) → threads_of pid after ≡ threads_of pid before ++ threads_in pid rs

group-Grouped : (rs : List Row) (ps : List Process) → IsGrouped ps → Grouped rs ps (group rs ps)
unfolding group
group-Grouped [] ps g = record {
  grouped = g;
  threads = λ pid. sym (append-nil (threads_of pid ps));
}
group-Grouped (r ∷ rs) ps g =
    let rec = group-Grouped rs (add_row r ps) (add_row-IsGrouped r ps g) in
    record {
      grouped = rec.grouped;
      threads = λ pid.
          rec.threads pid
          ∙ ap (λ t. t ++ threads_in pid rs) (threads_of-add_row pid r ps g)
          ∙ regroup (same_int r.pid pid) (threads_of pid ps) (threads_in pid rs) r.thread;
    }

-- parsePidinThreads lists each process once, with the number of its threads, and gives to each
-- process exactly the threads of the lines that name it, in the order of the lines.
pub parse_pidin_threads-IsGrouped :
    (out : Bytes)
    → IsGrouped (parse_pidin_threads out)
      × ((pid : ℤ)
          → threads_of pid (parse_pidin_threads out) ≡ threads_in pid (rows_of (split_lines out)))
unfolding parse_pidin_threads
parse_pidin_threads-IsGrouped out =
    let g = group-Grouped (rows_of (split_lines out)) [] tt in (g.grouped, g.threads)
