-- ===== src/Rating.antt =====
-- pkg/tlsscan/rating.go: the component scores, the letter grade and the grade caps, over the
-- parts of a `Result` (pkg/tlsscan/types.go) that they read.
pub mod Types
pub mod Score
pub mod Caps
pub mod Bounds
pub mod Verdict
pub mod Grades
pub mod Signs
pub mod Explained
pub mod Empty
