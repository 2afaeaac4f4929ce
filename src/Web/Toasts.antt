-- ===== src/Web/Toasts.antt =====
-- apps/web/src/components/ToastProvider.tsx: the messages in the corner. A random id is an argument,
-- and a timer is the id that its callback dismisses.
pub mod Gone
use docksight.Base.{String, List, [], ◌∷◌, ◌++◌, Option, ◌==◌, if◌then◌else◌}

pub data ToastTone : Type 0 where
  success error info : ToastTone

pub record Toast : Type 0 where
  pub id : String
  pub tone : ToastTone
  pub title : String
  pub description : Option String

pub record Toasts : Type 0 where
  pub toasts : List Toast
  pub timers : List String

abbrev pub no_toasts : Toasts
no_toasts = record { toasts = []; timers = [] }

unfoldable pub without_toast : String → List Toast → List Toast
without_toast id [] = []
without_toast id (t ∷ toasts) =
    let rest = without_toast id toasts in if t.id == id then rest else t ∷ rest

unfoldable pub without_timer : String → List String → List String
without_timer id [] = []
without_timer id (t ∷ timers) =
    let rest = without_timer id timers in if t == id then rest else t ∷ rest

-- dismiss
unfoldable pub dismiss : String → Toasts → Toasts
unfolding without_toast
dismiss id s = record s { toasts = without_toast id s.toasts }

-- push, with the timer of 4,500 ms that it starts.
unfoldable pub push : Toast → Toasts → Toasts
push t s = record { toasts = s.toasts ++ (t ∷ []); timers = s.timers ++ (t.id ∷ []) }

-- A timer that has run out.
unfoldable pub timed_out : String → Toasts → Toasts
unfolding dismiss without_timer
timed_out id s = record (dismiss id s) { timers = without_timer id s.timers }

pub data ToastEvent : Type 0 where
  pushed : Toast → ToastEvent
  dismissed elapsed : (id : String) → ToastEvent

abbrev pub toast_step : ToastEvent → Toasts → Toasts
toast_step (pushed t) s = push t s
toast_step (dismissed id) s = dismiss id s
toast_step (elapsed id) s = timed_out id s

unfoldable pub toast_run : List ToastEvent → Toasts → Toasts
unfolding push dismiss timed_out
toast_run [] s = s
toast_run (e ∷ es) s = toast_run es (toast_step e s)
