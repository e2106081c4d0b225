-- ===== src/Utils.antt =====
-- The string helpers of src/utils/utils.c.
pub mod Text
pub mod Json
