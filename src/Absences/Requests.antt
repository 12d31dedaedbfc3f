-- ===== src/Absences/Requests.antt =====
-- The absences service as a whole: any request of a parent or of staff.
use skolara.Prelude.{ℕ, ◌≡◌, true}
use skolara.Store.{Prisma, no_clash}
use skolara.Absences.{State, RequestAbsenceInput, ReviewAbsenceInput, request, review, cancel}
use skolara.Absences.Overlap.{overlaps, request-no_overlap, review-no_overlap, cancel-no_overlap}

pub data Request : Type 0 where
  ask : (school_id raised_by id : ℕ) → RequestAbsenceInput → Request
  decide_request : (school_id id reviewer now : ℕ) → ReviewAbsenceInput → Request
  cancel_request : (user_id id : ℕ) → Request

-- What the service leaves behind it.
pub serve : Prisma → Request → State → State
serve db (ask school_id raised_by id input) s = (request db school_id raised_by id input s).1
serve db (decide_request school_id id reviewer now input) s =
    (review db school_id id reviewer now input s).1
serve db (cancel_request user_id id) s = (cancel db user_id id s).1

-- Where no two live requests of one student overlap, none do after any request to the absences
-- service.
pub serve-no_overlap :
    (db : Prisma) (q : Request) (s : State)
    → no_clash overlaps s.requests ≡ true
    → no_clash overlaps (serve db q s).requests ≡ true
unfolding serve
serve-no_overlap db (ask school_id raised_by id input) s n =
    request-no_overlap db school_id raised_by id input s n
serve-no_overlap db (decide_request school_id id reviewer now input) s n =
    review-no_overlap db school_id id reviewer now input s n
serve-no_overlap db (cancel_request user_id id) s n = cancel-no_overlap db user_id id s n
