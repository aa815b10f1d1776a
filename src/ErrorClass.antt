-- ===== src/ErrorClass.antt =====
-- errorclass.go: the classification of errors. `errors.Is` and `errors.As` walk an error and what
-- it wraps in pre-order; their walks are ErrorClass/Walk.
pub mod Walk
pub mod Classify
pub mod Laws
pub mod Wrapping
pub mod UrlError
