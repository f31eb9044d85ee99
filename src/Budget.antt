-- ===== src/Budget.antt =====
-- labelkit/common/inference/budget.py: context budgets, token estimates, text trimming, the window
-- packer and the image cost calibrator.
mod Examples
pub mod Margins
pub mod Estimate
pub mod Image
pub mod Prompt
pub mod Fit
pub mod Packing
pub mod Calibrator
pub mod Failures
