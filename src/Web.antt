-- ===== src/Web.antt =====
-- core/src/endbotd/web_store.py and core/src/endbotd/web_auth.py: signing in to the web page.
mod Codes
mod Store
mod Verify
mod Devices
mod Revoked
mod Verified
mod Passkeys
mod Signing
mod Changes
mod Synced
mod Lifetimes
mod Granted
mod Ceremonies
mod Guesses
mod Redeemed
mod Holders
mod Tests
