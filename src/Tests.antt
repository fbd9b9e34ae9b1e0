-- ===== src/Tests.antt =====
-- Concrete runs of the model, and the theorems at concrete inputs.
mod Scenes
mod Sched
mod Lists
mod Numbers
mod Files
mod Storage
mod Pages
mod Tables
mod Strings
mod Mutex
mod Programs
