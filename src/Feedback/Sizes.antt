-- ===== src/Feedback/Sizes.antt =====
-- core/feedback.go: which sizes the detectors block.
