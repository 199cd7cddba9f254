-- ===== src/Worker.antt =====
-- python/S2AFL/runtime/mutation_worker.py: what the worker does to seeds before and after it asks the
-- language model. The prompts, the requests and the loop that runs tasks are not modelled.
pub mod Chain
pub mod Bodies
pub mod Clean
pub mod Quality
pub mod Sanitize
pub mod Limits
pub mod Validate
pub mod Extract
pub mod Context
