-- ===== src/Overlap/Finish.antt =====
-- Submissions come to an end.
use signup_daemon.Prelude.{
  ℕ, ◌+◌, ◌<◌, ◌≡◌, ap, Option, none, some, List, [], ◌∷◌, ◌++◌, append-nil, arith, ◌==◌,
  Bool-cases, inl, inr,
}
use signup_daemon.Js.Strings.{Text}
use signup_daemon.Js.Json.{Json}
use signup_daemon.Messages.{Site, Messages}
use signup_daemon.App.{World, App, Fetched, rejected, response, is_ok}
use signup_daemon.PassHash.{calc_pass_hash}
use signup_daemon.Ui.{Window, full_app}
use signup_daemon.Overlap.{
  Stage, for_session, for_answer, for_json, for_refusal, for_reason, Pending, State, post_hash,
  with_json, with_answer, after_session, after_refusal, after_answer, resume, ran,
}

-- How many answers and texts of answers a submission may still wait for, and all that wait together.
abbrev pub answers_left : Stage → ℕ
answers_left for_session = 4
answers_left (for_json body) = 3
answers_left for_answer = 2
answers_left (for_refusal status headers body) = 1
answers_left (for_reason body) = 1

pub all_left : List Pending → ℕ
all_left [] = 0
all_left (p ∷ ps) = answers_left p.stage + all_left ps

abbrev left_of : Option Pending → ℕ
left_of none = 0
left_of (some p) = answers_left p.stage

all_left-append : (ps qs : List Pending) → all_left (ps ++ qs) ≡ all_left ps + all_left qs
unfolding all_left
all_left-append [] qs = omega arith
all_left-append (p ∷ ps) qs = omega (arith, all_left-append ps qs)

module _ (world : World) (site : Site) (msg : Messages) where
  post_hash-left : (r : Option Text × App) → left_of (post_hash site msg r).0 < 3
  post_hash-left (none, app) = omega arith
  post_hash-left (some body, app) = omega arith

  with_json-left : (r : Option Json × App) → left_of (with_json world site msg r).0 < 3
  with_json-left (none, app) = omega arith
  with_json-left (some json, app) = post_hash-left (calc_pass_hash world site json app)

  session-left :
      (fetched : Fetched) (app : App) → left_of (after_session world site msg fetched app).0 < 4
  session-left rejected app = omega arith
  session-left (response status headers body) app = elim (Bool-cases (is_ok status)) [
    | inl good ↦ rw good (omega arith)
    | inr bad ↦ rw bad (omega arith)
  ]

  refusal-left :
      (status : ℕ) (headers : Text) (body : Option Text) (app : App)
      → left_of (with_answer world site msg (after_refusal site msg status headers body app)).0 < 1
  refusal-left status headers none app = omega arith
  refusal-left status headers (some content) app = omega arith

  answer-left :
      (fetched : Fetched) (app : App) → left_of (after_answer world site msg fetched app).0 < 2
  answer-left rejected app = omega arith
  answer-left (response status headers body) app = elim (Bool-cases (status == 422)) [
    | inl refusal ↦ rw refusal (omega arith)
    | inr other ↦ rw other (omega arith)
  ]

  resume-left :
      (stage : Stage) (fetched : Fetched) (app : App)
      → left_of (resume world site stage msg fetched app).0 < answers_left stage
  unfolding resume
  resume-left for_session fetched app = session-left fetched app
  resume-left (for_json body) fetched app = with_json-left _
  resume-left (for_refusal status headers body) fetched app = refusal-left status headers body app
  resume-left for_answer fetched app = answer-left fetched app
  resume-left (for_reason body) fetched app = omega arith

ran-left :
    (w : Window) (others : List Pending) (r : Option Pending × App)
    → all_left (ran w others r).pending ≡ all_left others + left_of r.0
unfolding all_left
ran-left w others (none, app) = rw (append-nil others) (omega arith)
ran-left w others (some p, app) = omega (arith, all_left-append others (p ∷ []))

-- Whatever an answer is, and to whichever submission it comes, it lowers the number of answers and
-- texts that the submissions may still wait for: four for each that waits for its session, three for
-- the text of that, two for the answer to the form, and one for the text of a refusal by either.
pub ran-all_left :
    (world : World) (site : Site) (s : State) (fetched : Fetched) (p : Pending)
    (before after : List Pending)
    → s.pending ≡ before ++ p ∷ after
    → all_left
        (ran s.window
          (before ++ after)
          (resume world site p.stage p.msg fetched (full_app s.window))).pending
      < all_left s.pending
unfolding all_left
ran-all_left world site s fetched p before after e = omega (
  arith,
  ran-left s.window (before ++ after) (resume world site p.stage p.msg fetched (full_app s.window)),
  resume-left world site p.msg p.stage fetched (full_app s.window),
  all_left-append before after,
  all_left-append before (p ∷ after),
  ap all_left e,
)
