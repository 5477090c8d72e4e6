-- ===== src/WeakCallback.antt =====
-- LuxPolaris/src/include/WeakCallback.h: a call of a method of an object that may be gone by then. The
-- objects that are alive are a store; a weak pointer is an object's number in it.
use lux_polaris.Prelude.{ℕ, Option, none, some, update}

pub record WeakCallback (A : Type 0) : Type 0 where
  pub object : ℕ
  pub function : A → A

module _ {A : Type 0} where
  abbrev pub make_weak_callback : ℕ → (A → A) → WeakCallback A
  make_weak_callback object function = record { object = object; function = function }

  -- `operator()`: nothing is called where the object cannot be locked.
  abbrev pub locked : WeakCallback A → Option A → (ℕ → Option A) → ℕ → Option A
  locked w none objects = objects
  locked w (some a) objects = update objects w.object (some (w.function a))

  unfoldable pub call : WeakCallback A → (ℕ → Option A) → ℕ → Option A
  call w objects = locked w (objects w.object) objects
