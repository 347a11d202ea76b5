-- ===== src/Collection.antt =====
-- Log collection, src/services/log_collection.py.
pub mod DockerPages
