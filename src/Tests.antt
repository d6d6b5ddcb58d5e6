-- ===== src/Tests.antt =====
-- Runs of the theorems at concrete inputs.
mod Alphabet
mod Numbers
mod Bucket
mod S3
mod Artifacts
mod Uploads
mod Flushing
mod Catalogs
mod Database
mod Starting
mod Cleaning
mod Waiting
mod Reports
mod Access
mod Site
