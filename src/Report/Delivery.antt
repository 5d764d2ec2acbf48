-- ===== src/Report/Delivery.antt =====
-- What a dispatch is to its reader: a machine that waits once and is then delivered or not, which the
-- rows of the dispatches implement.
pub mod Moved
pub mod Once
use finance.Prelude.{ℕ, zero, suc, Bool, true, false, ◌&&◌, List, String, str_eq}
use finance.Prelude.Sums.{count}
use finance.Close.Tables.{ReportDispatch, DispatchStatus, sent, failed}
use finance.Report.Dispatch.{is_pending}

pub data Delivery : Type 0 where
  absent waiting delivered undelivered : Delivery

pub data Move : Delivery → Delivery → Type 0 where
  stay : (s : Delivery) → Move s s
  wait : Move Delivery.absent Delivery.waiting
  deliver : Move Delivery.waiting Delivery.delivered
  fail : Move Delivery.waiting Delivery.undelivered

pub data Course (s : Delivery) : Delivery → Type 0 where
  no_move : Course s s
  then_move : (t u : Delivery) → Course s t → Move t u → Course s u

abbrev pub is_sent : DispatchStatus → Bool
is_sent sent = true
is_sent _ = false

abbrev pub is_failed : DispatchStatus → Bool
is_failed failed = true
is_failed _ = false

-- The rows with an identifier and a status.
abbrev pub in_status : (DispatchStatus → Bool) → String → ReportDispatch → Bool
in_status p id d = str_eq d.id id && p d.status

abbrev pub view : ℕ → ℕ → ℕ → Delivery
view (suc p) s f = Delivery.waiting
view zero (suc s) f = Delivery.delivered
view zero zero (suc f) = Delivery.undelivered
view zero zero zero = Delivery.absent

abbrev pub delivery_of : String → List ReportDispatch → Delivery
delivery_of id rows =
    view (count (in_status is_pending id) rows) (count (in_status is_sent id) rows)
      (count (in_status is_failed id) rows)
