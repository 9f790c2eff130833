-- ===== src/TaskManager.antt =====
-- pkg/safe/groutine.go: the manager of goroutines that end with their context.
mod Moves
mod Sums
mod Closing
mod Deadlock
mod Ending
mod Progress
mod Resting
mod Termination
mod Quiet
mod Recovery
pub use Moves.*
pub use Sums.{total, holds, at, counted, locks}
pub use Closing.{is_closing, IsDone, reachable-counts, reachable-IsDone}
pub use Deadlock.{IsDeadlocked, Run, here, onward, Run-IsDeadlocked}
pub use Ending.{is_call, goes_on, work, Working, done, works}
pub use Progress.{rests, waits, IsHung}
pub use Termination.{IsSettled, reachable-settles}
pub use Quiet.{inside, reachable-rests}
