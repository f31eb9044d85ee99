-- ===== src/State.antt =====
-- labelkit/operators/generation/state.py: one event on the state of a generated sequence.
-- JSON values, pointers, patches and schemas are those of the libraries that the source calls. A copy
-- of a JSON value by its canonical text is the value.
mod Examples
pub mod Data
pub mod Validation
pub mod Transition
pub mod Roots
pub mod Patches
pub mod Execution
