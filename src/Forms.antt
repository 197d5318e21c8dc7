-- ===== src/Forms.antt =====
-- web/frontend/src/app/validators: the form validators. A text is the list of its UTF-16 code
-- units, which is what `length` counts and a regular expression without the flag u reads.
pub mod Password
pub mod Validators
mod Tests
