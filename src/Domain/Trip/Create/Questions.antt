-- ===== src/Domain/Trip/Create/Questions.antt =====
-- The public questions of a published trip: no id twice, in the order of their times, with ISO
-- timestamps, and each answer no earlier than its question.
use nitip_cuy.Prelude.{
  ℕ, ◌≤◌, ◌≡◌, sym, ◌∙◌, subst, false, Option, none, some, List, [], ◌∷◌, leb, arith, All,
  Bool-cases, inl, inr,
}
use nitip_cuy.Text.{Text}
use nitip_cuy.Failure.{ok, throw_if, throw_if-eq-ok, after_bind, ok_path}
use nitip_cuy.Platform.{Platform, is_before}
use nitip_cuy.Domain.Trip.{
  PublicQuestion, PublicAnswer, require_label, require_iso_date_time, normalize_answer,
  optional_answer, predates, normalize_question,
}
use nitip_cuy.Domain.Trip.Create.Valid.{
  IsLabel, require_label-IsLabel, IsInstant, require_iso_date_time-IsInstant,
}
use nitip_cuy.Domain.Trip.Create.{
  repeats_id, asked_at, insert_by_time, sort_by_time, require_questions, normalize_questions,
}

module _ (p : Platform) where
  -- No two of the questions have one id.
  abbrev pub HasUniqueIds : List PublicQuestion → Type 0
  HasUniqueIds questions = repeats_id [] questions ≡ false

  -- The times of the questions do not decrease.
  pub IsSortedByTime : List PublicQuestion → Type 0
  IsSortedByTime [] = Unit
  IsSortedByTime (q ∷ qs) = All (λ r. asked_at p q ≤ asked_at p r) qs × IsSortedByTime qs

  All-insert :
      (P : PublicQuestion → Type 0) (q : PublicQuestion) (qs : List PublicQuestion)
      → P q
      → All P qs
      → All P (insert_by_time p q qs)
  unfolding insert_by_time
  All-insert P q [] a b = (a, tt)
  All-insert P q (r ∷ rs) a (b, c) = elim (Bool-cases (leb (asked_at p q) (asked_at p r))) [
    | inl earlier ↦ rw earlier (a, (b, c))
    | inr later ↦ rw later (b, All-insert P q rs a c)
  ]

  All-weaken :
      (q r : PublicQuestion) (qs : List PublicQuestion)
      → asked_at p q ≤ asked_at p r
      → All (λ s. asked_at p r ≤ asked_at p s) qs
      → All (λ s. asked_at p q ≤ asked_at p s) qs
  All-weaken q r [] h a = tt
  All-weaken q r (s ∷ qs) h (a, b) = (ground arith, All-weaken q r qs h b)

  insert-IsSortedByTime :
      (q : PublicQuestion) (qs : List PublicQuestion)
      → IsSortedByTime qs
      → IsSortedByTime (insert_by_time p q qs)
  unfolding insert_by_time IsSortedByTime
  insert-IsSortedByTime q [] h = (tt, tt)
  insert-IsSortedByTime q (r ∷ rs) (a, b) = elim (Bool-cases (leb (asked_at p q) (asked_at p r))) [
    | inl earlier ↦ rw earlier ((ground arith, All-weaken q r rs (ground arith) a), (a, b))
    | inr later ↦ rw later (
      All-insert (λ s. asked_at p r ≤ asked_at p s) q rs (ground arith) a,
      insert-IsSortedByTime q rs b,
    )
  ]

  sort-IsSortedByTime : (qs : List PublicQuestion) → IsSortedByTime (sort_by_time p qs)
  unfolding sort_by_time IsSortedByTime
  sort-IsSortedByTime [] = tt
  sort-IsSortedByTime (q ∷ qs) =
      insert-IsSortedByTime q (sort_by_time p qs) (sort-IsSortedByTime qs)

  -- An answer with texts that are trimmed and an ISO timestamp.
  pub record IsAnswer (answer : PublicAnswer) : Type 0 where
    pub author : IsLabel answer.author_display_name
    pub message : IsLabel answer.message
    pub created : IsInstant p answer.created_at

  -- An answer, if there is one, is at or after its question.
  abbrev IsAfter : Option PublicAnswer → Text → Type 0
  IsAfter none created_at = Unit
  IsAfter (some answer) created_at =
      IsAnswer answer
      × (t : ℕ) × (u : ℕ) × (p.parse_date created_at ≡ some t)
      × (p.parse_date answer.created_at ≡ some u)
      × (t ≤ u)

  -- A question with texts that are trimmed and an ISO timestamp, and its answer.
  pub record IsQuestion (q : PublicQuestion) : Type 0 where
    pub id : IsLabel q.id
    pub author : IsLabel q.author_display_name
    pub message : IsLabel q.message
    pub created : IsInstant p q.created_at
    pub answered : IsAfter q.answer q.created_at

  normalize_answer_lem : (a b : PublicAnswer) → normalize_answer p a ≡ ok b → IsAnswer b
  unfolding normalize_answer
  normalize_answer_lem a b h =
      after_bind (require_label a.author_display_name "Answer author") _ h λ u eu h1.
        after_bind (require_label a.message "Answer") _ h1 λ v ev h2.
          after_bind (require_iso_date_time p a.created_at "Answer timestamp") _ h2 λ c ec h3.
            subst IsAnswer (sym (ok_path h3)) (
              let (same, valid) = require_iso_date_time-IsInstant p _ _ c ec in
              record {
                author = (require_label-IsLabel p _ _ u eu).0;
                message = (require_label-IsLabel p _ _ v ev).0;
                created = rw same valid;
              })

  rest_path : (c b : PublicAnswer) → ok (some c) ≡ ok (some b) → ok c ≡ ok b
  rest_path c b h = cc

  optional_of_ok :
      (a : Option PublicAnswer) (b : PublicAnswer) → optional_answer p a ≡ ok (some b) → IsAnswer b
  unfolding optional_answer
  optional_of_ok none b h = absurd (ground arith)
  optional_of_ok (some a) b h =
      after_bind (normalize_answer p a) _ h
        λ c e rest. normalize_answer_lem a b (e ∙ rest_path c b rest)

  order_of_test :
      (a q : Text)
      → IsInstant p a
      → IsInstant p q
      → is_before (p.parse_date a) (p.parse_date q) ≡ false
      → (t : ℕ) × (u : ℕ) × (p.parse_date q ≡ some t) × (p.parse_date a ≡ some u) × (t ≤ u)
  order_of_test a q valid asked h =
      let (t, ea) = valid.instant in let (u, eb) = asked.instant in (u, t, eb, ea, ground arith)

  predates-IsAfter :
      (question : Text) (before after : Option PublicAnswer)
      → optional_answer p before ≡ ok after
      → IsInstant p question
      → predates p after question ≡ false
      → IsAfter after question
  predates-IsAfter question before none h i test = tt
  predates-IsAfter question before (some answer) h i test =
      let valid = optional_of_ok before answer h in
      let (t, u, asked, answered, ordered) =
        order_of_test answer.created_at question valid.created i test in
      (valid, t, u, asked, answered, ordered)

  normalize_question-IsQuestion :
      (q r : PublicQuestion) → normalize_question p q ≡ ok r → IsQuestion r
  unfolding normalize_question
  normalize_question-IsQuestion q r h =
      after_bind (require_iso_date_time p q.created_at "Question timestamp") _ h λ c ec h1.
        after_bind (optional_answer p q.answer) _ h1 λ a ea h2.
          after_bind (throw_if (predates p a q.created_at) _) _ h2 λ u eu h3.
            after_bind (require_label q.id "Question ID") _ h3 λ i ei h4.
              after_bind (require_label q.author_display_name "Question author") _ h4 λ n en h5.
                after_bind (require_label q.message "Question") _ h5 λ m em h6.
                  let asked = (require_iso_date_time-IsInstant p _ _ c ec).1 in
                  subst IsQuestion (sym (ok_path h6)) (record {
                    id = (require_label-IsLabel p _ _ i ei).0;
                    author = (require_label-IsLabel p _ _ n en).0;
                    message = (require_label-IsLabel p _ _ m em).0;
                    created = asked;
                    answered =
                        predates-IsAfter q.created_at q.answer a ea asked (throw_if-eq-ok _ _ eu);
                  })

  normalize_questions-All :
      (qs rs : List PublicQuestion) → normalize_questions p qs ≡ ok rs → All IsQuestion rs
  unfolding normalize_questions
  normalize_questions-All [] [] h = tt
  normalize_questions-All [] (r ∷ rs) h = absurd (ground arith)
  normalize_questions-All (q ∷ qs) rs h = after_bind (normalize_question p q) _ h λ r er rest.
      after_bind (normalize_questions p qs) _ rest λ ss es last.
        let e : rs ≡ r ∷ ss = cc in
        subst (λ x. All IsQuestion x) (sym e)
          (normalize_question-IsQuestion q r er, normalize_questions-All qs ss es)

  sort-All :
      (P : PublicQuestion → Type 0) (qs : List PublicQuestion)
      → All P qs
      → All P (sort_by_time p qs)
  unfolding sort_by_time
  sort-All P [] h = tt
  sort-All P (q ∷ qs) (a, b) = All-insert P q (sort_by_time p qs) a (sort-All P qs b)

  -- Questions that `require_questions` returns are the normalized ones, of which no two have one
  -- id, in the order of their times; their texts and those of their answers are trimmed, their
  -- timestamps are ISO timestamps, and none has an answer that predates it.
  pub record IsDiscussion (questions : List PublicQuestion) (out : List PublicQuestion)
      : Type 0 where
    pub normalized : List PublicQuestion
    pub from_input : normalize_questions p questions ≡ ok normalized
    pub distinct : HasUniqueIds normalized
    pub sorted : out ≡ sort_by_time p normalized
    pub in_order : IsSortedByTime out
    pub each : All IsQuestion out

  pub require_questions-IsDiscussion :
      (questions out : List PublicQuestion)
      → require_questions p questions ≡ ok out
      → IsDiscussion questions out
  unfolding require_questions
  require_questions-IsDiscussion questions out h =
      after_bind (normalize_questions p questions) _ h λ ns en h1.
        after_bind (throw_if (repeats_id [] ns) _) _ h1 λ u eu h2. record {
          normalized = ns;
          from_input = en;
          distinct = throw_if-eq-ok _ _ eu;
          sorted = ok_path h2;
          in_order = subst IsSortedByTime (sym (ok_path h2)) (sort-IsSortedByTime ns);
          each =
              subst (All IsQuestion) (sym (ok_path h2))
                (sort-All IsQuestion ns (normalize_questions-All questions ns en));
        }
