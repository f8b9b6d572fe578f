-- ===== src/Deploy.antt =====
-- The providers of deployments: providers/deploy.
pub mod Shell
pub mod Compose
pub mod Kubernetes
