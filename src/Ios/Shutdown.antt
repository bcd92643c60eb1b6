-- ===== src/Ios/Shutdown.antt =====
-- `shutdown_all` of crates/quadcontrol-ios/src/session.rs. Its loop over the handles is, statement for
-- statement, the one of crates/quadcontrol-android/src/lib.rs; of a handle it uses the same two things.
use quad_control.Base.{ℕ, ◌+◌, List}
use quad_control.Android.Shutdown.{SessionHandle, wait_handles}

-- `now` is the moment after the requests to stop
unfoldable pub shutdown_all : ℕ → ℕ → List SessionHandle → ℕ × List ℕ
unfolding wait_handles
shutdown_all now budget handles = wait_handles (now + budget) now handles
