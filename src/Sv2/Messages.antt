-- ===== src/Sv2/Messages.antt =====
-- The messages of src/models/sv2, with their serializers: one module for each group.
pub mod Setup
pub mod Open
pub mod Channel
pub mod Job
pub mod Submit
pub mod Extended
pub mod ExtendedJob
pub mod Template
pub mod TemplateData
pub mod Token
pub mod Declare
pub mod Missing
pub mod Custom
